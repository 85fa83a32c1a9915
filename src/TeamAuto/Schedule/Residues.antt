-- ===== src/TeamAuto/Schedule/Residues.antt =====
-- The distance to the next multiple, for the steps of a schedule.
use native.Mathlib.Nat.{mod-add-mod, add-mod-mod, mod_self, mod-lt}
use teamclaw.Prelude.{ℕ, ◌+◌, ◌-◌, ◌%◌, ◌<◌, ◌≡◌, arith}

-- The distance from `m` to the next multiple of `n`.
abbrev pub rest_of : ℕ → ℕ → ℕ
rest_of m n = (n - m % n) % n

pub rest_of_lt : (m n : ℕ) → 0 < n → rest_of m n < n
rest_of_lt m n pos = mod-lt (n - m % n) pos

pub rest_of_lem : (m n : ℕ) → 0 < n → (m + rest_of m n) % n ≡ 0
rest_of_lem m n pos =
    let small : m % n < n = mod-lt m pos in
    let whole : m % n + (n - m % n) ≡ n = omega arith in
    let wrapped : (m % n + (n - m % n)) % n ≡ 0 = rw whole (mod_self n) in
    rw (add-mod-mod m (n - m % n) n) (rw (mod-add-mod m n (n - m % n)) at wrapped)
