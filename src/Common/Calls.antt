-- ===== src/Common/Calls.antt =====
-- Calls that change a state and may fail: `STATUS_CHECK_RET` is the bind. `err` holds a code other than `UFP_OK`, and `done` a value that is
-- returned with `UFP_OK`.
use mathlib.Core.Path.{◌≡◌}
use ufprog.Common.StatusCode.{Status, Result, done, err}

abbrev pub Call : Type 0 → Type 0 → Type 0
Call S A = S → Result A × S

abbrev pub pure : {S A : Type 0} → A → Call S A
pure a s = (done a, s)

abbrev pub fail_with : {S A : Type 0} → Status → Call S A
fail_with e s = (err e, s)

abbrev pub and_then : {S A B : Type 0} → Result A × S → (A → Call S B) → Result B × S
and_then (done a, s) f = f a s
and_then (err e, s) f = (err e, s)

infixl 5 ◌>>=◌ ◌>>◌
abbrev pub ◌>>=◌ : {S A B : Type 0} → Call S A → (A → Call S B) → Call S B
◌>>=◌ m f s = and_then (m s) f

abbrev pub ◌>>◌ : {S B : Type 0} → Call S (Unit {0}) → Call S B → Call S B
◌>>◌ m k s = and_then (m s) (λ _. k)

-- `STATUS_CHECK_RET(clean_up()); return ret;`: the result of the first call, unless the second fails.
abbrev pub returning : {S A : Type 0} → Result A → Result (Unit {0}) × S → Result A × S
returning r (done _, s) = (r, s)
returning r (err e, s) = (err e, s)

-- `out: clean_up(); return ret;`
abbrev pub ending : {S A : Type 0} → Call S A → (S → S) → Call S A
ending m clean_up s = let (r, s') = m s in (r, clean_up s')

abbrev pub map_done : {A B : Type 0} → (A → B) → Result A → Result B
map_done f (done a) = done (f a)
map_done f (err e) = err e

-- A call whose first part succeeds goes on with its value.
pub and_then-done :
    {S A B : Type 0} (p : Result A × S) (f : A → Call S B) {a : A}
    → p.0 ≡ done a
    → and_then p f ≡ f a p.1
and_then-done (done b, s) f h = cc
and_then-done (err e, s) f h = cc

-- One whose first part fails ends there.
pub and_then-err :
    {S A B : Type 0} (p : Result A × S) (f : A → Call S B) {e : Status}
    → p.0 ≡ err e
    → and_then p f ≡ (err e, p.1)
and_then-err (done b, s) f h = cc
and_then-err (err e, s) f h = cc
