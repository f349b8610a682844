-- ===== src/Monitor/Checks.antt =====
-- When src/sn_monitor.cpp reports a service.
use pskynet.Prelude.{
  ℕ, ◌+◌, ◌%◌, ◌^◌, ◌<◌, ◌≡◌, ◌≢◌, refl, ap, ◌∙◌, List, [], ◌∷◌, none, some, arith, length,
}
use pskynet.Monitor.{Monitor, check, trigger}

-- The calls of `Trigger` between two checks, by their arguments.
abbrev pub trigger_all : List (ℕ × ℕ) → Monitor → Monitor
trigger_all [] m = m
trigger_all ((source, destination) ∷ ts) m = trigger_all ts (trigger source destination m)

trigger_all-version :
    (ts : List (ℕ × ℕ)) (m : Monitor)
    → m.version < 2 ^ 32
    → (trigger_all ts m).version ≡ (m.version + length ts) % 2 ^ 32
unfolding trigger
trigger_all-version [] m h = omega arith
trigger_all-version ((a, b) ∷ ts) m h =
    omega (arith, trigger_all-version ts (trigger a b m) (omega arith))

trigger_all-check_version :
    (ts : List (ℕ × ℕ)) (m : Monitor) → (trigger_all ts m).check_version ≡ m.check_version
unfolding trigger
trigger_all-check_version [] m = refl
trigger_all-check_version ((a, b) ∷ ts) m = trigger_all-check_version ts (trigger a b m)

check_version-check : (m : Monitor) → (check m).1.check_version ≡ m.version
unfolding check
check_version-check m = ground arith

version-check : (m : Monitor) → (check m).1.version ≡ m.version
unfolding check
version-check m = ground arith

-- What the second of two checks says.
pub record Checked (m : Monitor) (ts : List (ℕ × ℕ)) : Type 0 where
  pub stays :
      ts ≡ [] → m.destination ≢ 0 → (check (trigger_all ts (check m).1)).0 ≡ some m.destination
  pub idle :
      (trigger_all ts (check m).1).destination ≡ 0 → (check (trigger_all ts (check m).1)).0 ≡ none
  pub moves : length ts % 2 ^ 32 ≢ 0 → (check (trigger_all ts (check m).1)).0 ≡ none

check_idle : (m : Monitor) → m.destination ≡ 0 → (check m).0 ≡ none
unfolding check
check_idle m h = ground arith

check_moved : (m : Monitor) → m.version ≢ m.check_version → (check m).0 ≡ none
unfolding check
check_moved m h = ground arith

check_stays : (m : Monitor) → m.destination ≢ 0 → (check (check m).1).0 ≡ some m.destination
unfolding check
check_stays m h = ground arith

-- The second of two checks reports the service that a worker is in, when it has been in the same
-- message since the first. It reports nothing when the worker is idle, and nothing when the worker
-- has begun or ended messages in between, unless it is a multiple of 2^32 times.
pub check-Checked : (m : Monitor) (ts : List (ℕ × ℕ)) → m.version < 2 ^ 32 → Checked m ts
check-Checked m ts h =
    let n : Monitor = (check m).1 in
    let last : Monitor = trigger_all ts n in
    let before : n.version < 2 ^ 32 = rw (version-check m) h in
    let now : last.version ≡ (m.version + length ts) % 2 ^ 32 =
      trigger_all-version ts n before ∙ ap (λ v. (v + length ts) % 2 ^ 32) (version-check m) in
    let seen : last.check_version ≡ m.version =
      trigger_all-check_version ts n ∙ check_version-check m in
    record {
      stays = λ e d. rw e (check_stays m d);
      idle = λ d. check_idle last d;
      moves = λ k. check_moved last (λ e.
          let same : (m.version + length ts) % 2 ^ 32 ≡ m.version = ground arith in
          k (omega arith));
    }
