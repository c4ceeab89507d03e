-- ===== src/Findings/Gate.antt =====
-- No finding is stored as confirmed without its verification.
use mathlib.Core.Bool.{true≢false}
use security_tool.Prelude.{
  Bool, true, false, not, ◌&&◌, List, [], ◌∷◌, ◌++◌, Option, none, some, ◌==◌, nat_eq, leb, leb_iff,
  ◌≤◌, Outcome, ok, raise, ◌≡◌, refl, ◌∙◌, sym, Bool-cases, inl, inr, Memᴰ, All, ◌⊎◌, raise_no_ok,
  ◌≢◌, All-append, All_at,
}
use security_tool.Findings.{
  Finding, FindingConfidence, confirmed, probable, informational, Verification, satisfies_confirmed,
  is_refused, is_verified, is_confirmed, Refused, enforce_confirmed, update_row, update_rows, flush,
  flushed,
}

-- A confirmed finding has a verification that passed and that reproduced it twice.
abbrev pub IsBacked : Finding → Type 0
IsBacked f =
    (f.confidence ≢ confirmed)
    ⊎ ((v : Verification) × (f.verification ≡ some v)
        × (v.passed ≡ true)
        × (2 ≤ v.reproduced_count))

not-false : {b : Bool} → not b ≡ false → b ≡ true
not-false {b = true} h = refl
not-false {b = false} h = cc

verified :
    (v : Verification) → satisfies_confirmed v ≡ true → (v.passed ≡ true) × (2 ≤ v.reproduced_count)
unfolding satisfies_confirmed
verified v h = both v.passed (Bool-cases (leb 2 v.reproduced_count)) h
  where
    both :
        (b : Bool)
        → (leb 2 v.reproduced_count ≡ true) ⊎ (leb 2 v.reproduced_count ≡ false)
        → (b && leb 2 v.reproduced_count) ≡ true
        → (b ≡ true) × (2 ≤ v.reproduced_count)
    both true (inl e) k = (refl, (leb_iff 2 v.reproduced_count).0 e)
    both true (inr e) k = absurd (true≢false (sym k ∙ e))
    both false c k = cc

is_refused-IsBacked : (f : Finding) → is_refused f ≡ false → IsBacked f
is_refused-IsBacked f h = by_fields f.confidence f.verification h
  where
    by_fields :
        (c : FindingConfidence) (o : Option Verification)
        → (is_confirmed c && not (is_verified o)) ≡ false
        → (c ≢ confirmed)
          ⊎ ((v : Verification) × (o ≡ some v) × (v.passed ≡ true) × (2 ≤ v.reproduced_count))
    by_fields confirmed none k = cc
    by_fields confirmed (some v) k = let (a, b) = verified v (not-false k) in inr (v, refl, a, b)
    by_fields probable o k = inl λ e. cc
    by_fields informational o k = inl λ e. cc

enforce_confirmed-All :
    (fs : List Finding) {u : Unit {0}} → enforce_confirmed fs ≡ ok u → All IsBacked fs
unfolding enforce_confirmed
enforce_confirmed-All [] h = tt
enforce_confirmed-All (f ∷ fs) h = elim (Bool-cases (is_refused f)) [
  | inl k ↦ absurd (raise_no_ok (rw k at h))
  | inr k ↦ (is_refused-IsBacked f k, enforce_confirmed-All fs (rw k at h))
]

update_row-All :
    (f : Finding) (rows : List Finding)
    → IsBacked f
    → All IsBacked rows
    → All IsBacked (update_row f rows)
unfolding update_row
update_row-All f [] h all = tt
update_row-All f (g ∷ rows) h (a, all) = elim (Bool-cases (g.id == f.id)) [
  | inl k ↦ rw k (h, update_row-All f rows h all)
  | inr k ↦ rw k (a, update_row-All f rows h all)
]

update_rows-All :
    (dirty rows : List Finding)
    → All IsBacked dirty
    → All IsBacked rows
    → All IsBacked (update_rows dirty rows)
unfolding update_rows
update_rows-All [] rows h all = all
update_rows-All (f ∷ dirty) rows (a, h) all =
    update_rows-All dirty (update_row f rows) h (update_row-All f rows a all)

All-split : (xs ys : List Finding) → All IsBacked (xs ++ ys) → All IsBacked xs × All IsBacked ys
All-split [] ys h = (tt, h)
All-split (x ∷ xs) ys (a, h) = let (b, c) = All-split xs ys h in ((a, b), c)

-- The table after a flush that does not raise, and after one that does: it is rolled back.
unfoldable pub kept : Outcome Refused (List Finding) → List Finding → List Finding
kept (ok rows) old = rows
kept (raise e) old = old

-- The table after some sessions' flushes, each with its new and its dirty rows.
unfoldable pub flushes : List (List Finding × List Finding) → List Finding → List Finding
unfolding kept
flushes [] rows = rows
flushes ((new, dirty) ∷ calls) rows = flushes calls (kept (flush new dirty rows) rows)

flush-All :
    (new dirty rows : List Finding)
    → All IsBacked rows
    → All IsBacked (kept (flush new dirty rows) rows)
unfolding flush kept
flush-All new dirty rows all = by_outcome (enforce_confirmed (new ++ dirty)) refl
  where
    by_outcome :
        (o : Outcome Refused (Unit {0}))
        → enforce_confirmed (new ++ dirty) ≡ o
        → All IsBacked (kept (flushed o rows (update_rows dirty rows ++ new)) rows)
    by_outcome (raise e) k = all
    by_outcome (ok u) k =
        let (a, b) = All-split new dirty (enforce_confirmed-All (new ++ dirty) k) in
        All-append IsBacked (update_rows dirty rows) new (update_rows-All dirty rows b all) a

flushes-All :
    (calls : List (List Finding × List Finding)) (rows : List Finding)
    → All IsBacked rows
    → All IsBacked (flushes calls rows)
unfolding flushes
flushes-All [] rows all = all
flushes-All ((new, dirty) ∷ calls) rows all =
    flushes-All calls (kept (flush new dirty rows) rows) (flush-All new dirty rows all)

-- Whatever rows the sessions flush, one flush after another on an empty table, each finding that
-- is stored as confirmed has a verification that passed and reproduced it at least twice. A
-- verification changes together with its finding's row.
pub flushes-IsBacked :
    (calls : List (List Finding × List Finding)) {f : Finding}
    → Memᴰ f (flushes calls [])
    → (f.confidence ≢ confirmed)
      ⊎ ((v : Verification) × (f.verification ≡ some v)
          × (v.passed ≡ true)
          × (2 ≤ v.reproduced_count))
flushes-IsBacked calls m = All_at IsBacked (flushes calls []) (flushes-All calls [] tt) m
