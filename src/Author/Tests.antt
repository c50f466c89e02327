-- ===== src/Author/Tests.antt =====
-- A block with a signed call, an inherent and a second inherent; and an author's way into the storage.
use polkafoundry.Base.{
  ℕ, zero, suc, ◌≡◌, ◌↔◌, refl, arith, true, Option, List, [], ◌∷◌, none, some, ◌≢◌, codes, sym,
  Option-cases, Bool-cases, inl, inr, eq_of_same_text, Origin, signed, unsigned, ok, err, panicked,
  same_text, same_text_refl, take, drop, if◌then◌else◌,
}
use polkafoundry.Author.{Storage, on_initialize, on_finalize, set_author_call, created, is_inherent}
use polkafoundry.Author.Blocks.{run, block_author, first_unsigned}
use polkafoundry.Author.Inherents.{
  InherentData, InherentKeeps, inherent_identifier, provide_inherent_data, check_inherent,
  dispatch_inherent, find_author, create_inherent,
}
use polkafoundry.Author.Inherents.Journey.{create_inherent-provide_inherent_data}

abbrev before : Storage
before = record { author = some 9; logs = [] }

abbrev calls : List (Origin × ℕ)
calls = (signed 1, 1) ∷ (unsigned, 2) ∷ (unsigned, 3) ∷ []

block_author_example :
    ((run calls (on_initialize before)).author ≡ some 2)
    × (((on_finalize (run calls (on_initialize before))).0 ≡ err panicked)
        ↔ (first_unsigned calls ≡ none))
block_author_example = block_author calls before

-- Inherent data as a list of entries; an account id is encoded as itself and thirty-one zeros.
abbrev Data : Type 0
Data = List (List ℕ × List ℕ)

abbrev find_data : List ℕ → Data → Option (List ℕ)
find_data id [] = none
find_data id ((key, value) ∷ d) = if same_text key id then some value else find_data id d

abbrev sample_data : InherentData Data
sample_data = record {
  put_data = λ id value d. elim (find_data id d) [ none ↦ some ((id, value) ∷ d) | some v ↦ none ];
  get_data = λ id d. ok (find_data id d);
}

sample_keeps :
    (id value : List ℕ) (d d' : Data)
    → sample_data.put_data id value d ≡ some d'
    → sample_data.get_data id d' ≡ ok (some value)
sample_keeps id value d d' h = ground (arith, same_text_refl id)

sample_keeps_others :
    (id other value : List ℕ) (d d' : Data)
    → id ≢ other
    → sample_data.put_data other value d ≡ some d'
    → sample_data.get_data id d' ≡ sample_data.get_data id d
sample_keeps_others id other value d d' ne h = elim (Option-cases (find_data other d)) [
  | inr (v, e) ↦ absurd (ground (arith, e, h))
  | inl e ↦ elim (Bool-cases (same_text other id)) [
    | inl t ↦ absurd (ne (sym (eq_of_same_text other id t)))
    | inr t ↦ ground (arith, e, h, t)
  ]
]

sample_InherentKeeps : InherentKeeps sample_data
sample_InherentKeeps = record {
  get_data-put_data = sample_keeps;
  get_data-put_data_ne = sample_keeps_others;
}

abbrev zeros : ℕ → List ℕ
zeros zero = []
zeros (suc n) = 0 ∷ zeros n

abbrev encode : ℕ → List ℕ
encode a = a ∷ zeros 31

abbrev decode : List ℕ → Option ℕ
decode [] = none
decode (a ∷ bytes) = some a

-- The data of another inherent.
abbrev stamp : List ℕ × List ℕ
stamp = (codes "timstap0", 5 ∷ [])

put_first :
    provide_inherent_data sample_data (encode 7) [] ≡ some ((inherent_identifier, encode 7) ∷ [])
unfolding provide_inherent_data
put_first = refl

create_inherent-provide_inherent_data_example :
    let call = set_author_call 7 in
    let (r, t) = dispatch_inherent call (on_initialize before) in
    (create_inherent sample_data decode (stamp ∷ (inherent_identifier, encode 7) ∷ [])
      ≡ created call)
    × (is_inherent call ≡ true)
    × (check_inherent call ≡ ok tt)
    × (r ≡ ok tt)
    × (t.author ≡ some 7)
    × (find_author encode t ≡ created (take 20 (drop 4 (encode 7))))
create_inherent-provide_inherent_data_example =
    create_inherent-provide_inherent_data sample_data sample_InherentKeeps encode decode 7
      (stamp ∷ []) [] ((inherent_identifier, encode 7) ∷ [])
      (stamp ∷ (inherent_identifier, encode 7) ∷ []) before refl (omega arith) put_first
      ((λ e. ground arith), tt) refl
