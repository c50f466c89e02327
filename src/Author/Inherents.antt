-- ===== src/Author/Inherents.antt =====
-- The inherent of pallets/author-inherent/src/lib.rs on the node's side, its errors, and the author that
-- the EVM sees. `InherentData` of sp_inherents, which is not part of this repository, and the codec of
-- account ids and errors are parameters.
pub mod Journey
use polkafoundry.Base.{
  ℕ, ◌≡◌, ◌≢◌, Bool, true, Option, none, some, List, Result, ok, err, codes, same_text, take, drop,
  length, leb, if◌then◌else◌,
}
use polkafoundry.Author.{
  Storage, Dispatch, set_author, InherentCall, set_author_call, Created, created, absent, aborted,
  decoded,
}
use polkafoundry.Base.{unsigned}

-- The inherent data of a block: `put_data` fails if the identifier has data already.
pub record InherentData (D : Type 0) : Type 0 where
  pub put_data : List ℕ → List ℕ → D → Option D
  pub get_data : List ℕ → D → Result (Unit {0}) (Option (List ℕ))

-- What its documentation says: data that were put are got back, and putting data of one identifier
-- leaves that of the others.
pub record InherentKeeps {D : Type 0} (api : InherentData D) : Type 0 where
  pub get_data-put_data :
      (id value : List ℕ) (d d' : D)
      → api.put_data id value d ≡ some d'
      → api.get_data id d' ≡ ok (some value)
  pub get_data-put_data_ne :
      (id other value : List ℕ) (d d' : D)
      → id ≢ other
      → api.put_data other value d ≡ some d'
      → api.get_data id d' ≡ api.get_data id d

abbrev pub engine_id : List ℕ
engine_id = codes "auth"

abbrev pub inherent_identifier : List ℕ
inherent_identifier = codes "author__"

pub data InherentError : Type 0 where
  other : List ℕ → InherentError

unfoldable pub is_fatal_error : InherentError → Bool
is_fatal_error (other message) = true

module _ (decode : List ℕ → Option InherentError) where
  unfoldable pub try_from : List ℕ → List ℕ → Option InherentError
  try_from id bytes = if same_text id inherent_identifier then decode bytes else none

  -- The error as the node reports it, if it belongs to this inherent and can be decoded.
  unfoldable pub try_handle_error : List ℕ → List ℕ → Option (Result InherentError (Unit {0}))
  try_handle_error identifier error =
      if same_text identifier inherent_identifier
      then elim (decode error) [ none ↦ none | some e ↦ some (err e) ]
      else none

-- `InherentDataProvider::provide_inherent_data`, with the provider's bytes.
unfoldable pub provide_inherent_data : {D : Type 0} → InherentData D → List ℕ → D → Option D
provide_inherent_data api author inherent_data =
    api.put_data inherent_identifier author inherent_data

-- What `get_data` gives: an error, nothing, or the bytes.
unfoldable pub call_of :
    (List ℕ → Option ℕ) → Result (Unit {0}) (Option (List ℕ)) → Created InherentCall
call_of decode (err e) = aborted
call_of decode (ok none) = absent
call_of decode (ok (some author_raw)) = decoded decode (decode author_raw)

unfoldable pub create_inherent :
    {D : Type 0} → InherentData D → (List ℕ → Option ℕ) → D → Created InherentCall
unfolding call_of
create_inherent api decode inherent_data =
    call_of decode (api.get_data inherent_identifier inherent_data)

unfoldable pub is_inherent_required : Result InherentError (Option InherentError)
is_inherent_required = ok (some (other (codes "AuthorInherentRequired")))

unfoldable pub check_inherent : InherentCall → Result InherentError (Unit {0})
check_inherent (set_author_call claimed_author) = ok tt

-- The dispatch of the call as an inherent.
unfoldable pub dispatch_inherent : InherentCall → Dispatch
dispatch_inherent (set_author_call author) = set_author unsigned author

-- `&bytes[4..24]`, which panics if there are too few.
abbrev pub slice : List ℕ → Created (List ℕ)
slice bytes = if leb 24 (length bytes) then created (take 20 (drop 4 bytes)) else aborted

-- `FindAuthor::find_author`, with the encoding of an account id.
unfoldable pub find_author : (ℕ → List ℕ) → Storage → Created (List ℕ)
find_author encode s = elim s.author [
  | none ↦ absent
  | some authority_id ↦ slice (encode authority_id)
]
