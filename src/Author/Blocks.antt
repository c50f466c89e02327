-- ===== src/Author/Blocks.antt =====
-- A block as the author pallet (pallets/author-inherent/src/lib.rs) sees it: the calls between
-- `on_initialize` and `on_finalize`.
use polkafoundry.Base.{
  ℕ, ◌≡◌, ◌↔◌, refl, arith, Option, none, some, List, [], ◌∷◌, Origin, root, signed, unsigned, err,
  panicked,
}
use polkafoundry.Author.{Storage, on_initialize, set_author, on_finalize}

-- The inherent calls of a block, one after the other, each with its origin.
unfoldable pub run : List (Origin × ℕ) → Storage → Storage
run [] s = s
run ((o, a) ∷ calls) s = run calls (set_author o a s).1

-- The author of the first call that came as an inherent, that is, without an origin.
abbrev pub first_unsigned : List (Origin × ℕ) → Option ℕ
first_unsigned [] = none
first_unsigned ((unsigned, a) ∷ calls) = some a
first_unsigned ((root, a) ∷ calls) = first_unsigned calls
first_unsigned ((signed w, a) ∷ calls) = first_unsigned calls

set_author_again :
    (o : Origin) (b : ℕ) (s : Storage) (a : ℕ)
    → s.author ≡ some a
    → (set_author o b s).1.author ≡ some a
unfolding set_author
set_author_again root b s a h = h
set_author_again (signed w) b s a h = h
set_author_again unsigned b s a h = ground arith

set_author_first :
    (b : ℕ) (s : Storage) → s.author ≡ none → (set_author unsigned b s).1.author ≡ some b
unfolding set_author
set_author_first b s h = ground arith

run_set :
    (calls : List (Origin × ℕ)) (s : Storage) (a : ℕ)
    → s.author ≡ some a
    → (run calls s).author ≡ some a
unfolding run
run_set [] s a h = h
run_set ((o, b) ∷ calls) s a h = run_set calls _ a (set_author_again o b s a h)

run_unset :
    (calls : List (Origin × ℕ)) (s : Storage)
    → s.author ≡ none
    → (run calls s).author ≡ first_unsigned calls
unfolding run set_author
run_unset [] s h = h
run_unset ((unsigned, b) ∷ calls) s h = run_set calls _ b (set_author_first b s h)
run_unset ((root, b) ∷ calls) s h = run_unset calls s h
run_unset ((signed w, b) ∷ calls) s h = run_unset calls s h

-- Whatever calls a block holds, its author is that of the first inherent among them: a signed or a root call
-- sets none, and a second inherent does not replace it. The block's end panics exactly if there was none.
pub block_author :
    (calls : List (Origin × ℕ)) (s : Storage)
    → ((run calls (on_initialize s)).author ≡ first_unsigned calls)
      × (((on_finalize (run calls (on_initialize s))).0 ≡ err panicked)
          ↔ (first_unsigned calls ≡ none))
unfolding on_initialize on_finalize
block_author calls s =
    let same = run_unset calls (on_initialize s) refl in
    (same, (λ e. ground (arith, same), λ e. ground (arith, same)))
