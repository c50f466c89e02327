-- ===== src/Author/Inherents/Journey.antt =====
-- The author of a block on its way from the node's inherent data into the storage.
use polkafoundry.Base.{
  ℕ, ◌≢◌, ◌∙◌, arith, none, [], ◌∷◌, Option-cases, inl, inr, ◌≡◌, ◌≤◌, refl, true, Option, some,
  List, ok, take, drop, length, le→leb,
}
use polkafoundry.Author.{Storage, on_initialize, set_author, set_author_call, created, is_inherent}
use polkafoundry.Author.Inherents.{
  InherentData, InherentKeeps, inherent_identifier, provide_inherent_data, check_inherent,
  dispatch_inherent, find_author, create_inherent, call_of,
}

-- The providers of other inherents put their data one after another.
abbrev pub put_all : {D : Type 0} → InherentData D → List (List ℕ × List ℕ) → D → Option D
put_all api [] d = some d
put_all api ((id, value) ∷ rest) d = elim (api.put_data id value d) [
  | none ↦ none
  | some d' ↦ put_all api rest d'
]

abbrev pub AllOther : List (List ℕ × List ℕ) → Type 0
AllOther [] = Unit
AllOther ((id, value) ∷ rest) = (inherent_identifier ≢ id) × AllOther rest

put_all-get_data :
    {D : Type 0} (api : InherentData D) (law : InherentKeeps api) (others : List (List ℕ × List ℕ))
    (d d' : D)
    → AllOther others
    → put_all api others d ≡ some d'
    → api.get_data inherent_identifier d' ≡ api.get_data inherent_identifier d
put_all-get_data api law [] d d' a h = ground (arith, h)
put_all-get_data api law ((id, value) ∷ rest) d d' a h =
    elim (Option-cases (api.put_data id value d)) [
      | inl e ↦ absurd (ground (arith, e, h))
      | inr (d1, e) ↦
          put_all-get_data api law rest d1 d' a.1 (ground (arith, e, h))
          ∙ law.get_data-put_data_ne inherent_identifier id value d d1 a.0 e
    ]

module _ {D : Type 0} (api : InherentData D) (law : InherentKeeps api) (encode : ℕ → List ℕ)
    (decode : List ℕ → Option ℕ) where
  -- What the node provides comes back: if the data of an encoded author could be put, and after them data of
  -- whatever other inherents, the pallet makes of the inherent data
  -- the call that sets this author, recognises and accepts it, and its dispatch after the start of the
  -- block succeeds, with this author stored; the EVM then sees the bytes 4 to 23 of its encoding. (Ids
  -- decode to what was encoded, and the encoding has at least 24 bytes.)
  pub create_inherent-provide_inherent_data :
      (author : ℕ) (others : List (List ℕ × List ℕ)) (d d' d'' : D) (s : Storage)
      → decode (encode author) ≡ some author
      → 24 ≤ length (encode author)
      → provide_inherent_data api (encode author) d ≡ some d'
      → AllOther others
      → put_all api others d' ≡ some d''
      → let call = set_author_call author in
        let (r, t) = dispatch_inherent call (on_initialize s) in
        (create_inherent api decode d'' ≡ created call)
        × (is_inherent call ≡ true)
        × (check_inherent call ≡ ok tt)
        × (r ≡ ok tt)
        × (t.author ≡ some author)
        × (find_author encode t ≡ created (take 20 (drop 4 (encode author))))
  unfolding provide_inherent_data create_inherent call_of is_inherent check_inherent
      dispatch_inherent set_author on_initialize find_author
  create_inherent-provide_inherent_data author others d d' d'' s h long put other all_put =
      let got =
        put_all-get_data api law others d' d'' other all_put
        ∙ law.get_data-put_data inherent_identifier (encode author) d d' put in
      (rw (got, h) refl, refl, refl, refl, refl, rw (le→leb 24 (length (encode author)) long) refl)
