-- ===== src/Author.antt =====
-- pallets/author-inherent/src/lib.rs: the author of a block is set by an inherent. The decoding
-- of an account id is a parameter (parity_scale_codec); a digest item is the author that it names, and a panic is `panicked` or
-- `aborted`.
pub mod Blocks
pub mod Inherents
mod Tests
use polkafoundry.Base.{
  ℕ, Bool, true, false, Option, none, some, List, push, Call, Origin, Failure, gets, modify, ensure,
  panic_if, ensure_none, ◌>>=◌, ◌>>◌,
}

pub data Error : Type 0 where
  author_already_set cannot_be_author : Error

pub record Storage : Type 0 where
  pub author : Option ℕ
  -- the authors of the consensus digest items
  pub logs : List ℕ

abbrev pub Dispatch : Type 0
Dispatch = Call Storage (Failure Error) (Unit {0})

abbrev pub is_none : {A : Type 0} → Option A → Bool
is_none none = true
is_none (some _) = false

unfoldable pub on_initialize : Storage → Storage
on_initialize s = record s { author = none }

unfoldable pub set_author : Origin → ℕ → Dispatch
set_author origin author = do
  ensure_none origin
  s ← gets (λ s. s)
  ensure (is_none s.author) author_already_set
  modify (λ s. record s { author = some author })
  modify (λ s. record s { logs = push s.logs author })

-- `assert!(Author::get().is_some())`
unfoldable pub on_finalize : Dispatch
on_finalize = do s ← gets (λ s. s); panic_if (is_none s.author)

-- `Call` of the pallet, as `is_inherent` sees it.
pub data InherentCall : Type 0 where
  set_author_call : ℕ → InherentCall

-- `expect`: the data were missing a decodable value.
pub data Created (A : Type 0) : Type 0 where
  created : A → Created A
  absent : Created A
  aborted : Created A

module _ (decode : List ℕ → Option ℕ) where
  abbrev pub decoded : Option ℕ → Created InherentCall
  decoded none = aborted
  decoded (some author) = created (set_author_call author)

unfoldable pub is_inherent : InherentCall → Bool
is_inherent (set_author_call author) = true
