-- ===== src/Timer.antt =====
-- include/timer.h: the readings of the two clocks in microseconds. The counters of the operating
-- system are arguments.
use vdi_cpp_wrapper.Prelude.{
  ℕ, ◌+◌, ◌-◌, ◌*◌, ◌/◌, ◌≤◌, ◌<◌, ◌≡◌, arith, sub64, mul64, u64_mod, sub64-eq-sub, sym, ap, subst,
}
use native.Mathlib.Nat.{add-div_right, div-mul-le_self, le-div_iff_mul-le}

-- The frequency and the first reading of the performance counter. The frequency is never 0 on the
-- systems that have the counter.
pub record QpcTimer : Type 0 where
  pub freq : ℕ
  pub start : ℕ

-- uint64_t QPCTimer::now_us(), at the reading `now` of the counter
unfoldable pub qpc_now_us : QpcTimer → ℕ → ℕ
qpc_now_us timer now =
    let elapsed_ticks = sub64 now timer.start in mul64 elapsed_ticks 1000000 / timer.freq

-- uint64_t ChronoTimer::now_us(), where the steady clock counts nanoseconds
unfoldable pub chrono_now_us : ℕ → ℕ → ℕ
chrono_now_us epoch now = (now - epoch) / 1000

pub data TimerMode : Type 0 where
  chrono_mode qpc_mode : TimerMode

pub data TimerKind : Type 0 where
  chrono_timer qpc_timer : TimerKind

-- create_timer(mode), as built for Windows
unfoldable pub create_timer : TimerMode → TimerKind
create_timer chrono_mode = chrono_timer
create_timer qpc_mode = qpc_timer

-- With no wrap, the time is the exact quotient.
elapsed_lem :
    (start now : ℕ)
    → start ≤ now
    → now < u64_mod
    → (now - start) * 1000000 < u64_mod
    → mul64 (sub64 now start) 1000000 ≡ (now - start) * 1000000
elapsed_lem start now h w small =
    let e : sub64 now start ≡ now - start = sub64-eq-sub now start w h in omega (arith, e)

div_mono : (m n k : ℕ) → 0 < k → m ≤ n → m / k ≤ n / k
div_mono m n k h le = (le-div_iff_mul-le h).1 (omega (arith, div-mul-le_self m k))

-- Readings of the performance counter that are in order, from the start on, give times in order,
-- as long as the ticks since the start times 10^6 stay below 2^64; the later one is then the
-- exact quotient.
pub qpc_now_us_mono :
    (timer : QpcTimer) (a b : ℕ)
    → 0 < timer.freq
    → timer.start ≤ a
    → a ≤ b
    → b < u64_mod
    → (b - timer.start) * 1000000 < u64_mod
    → (qpc_now_us timer a ≤ qpc_now_us timer b)
      × (qpc_now_us timer b ≡ (b - timer.start) * 1000000 / timer.freq)
unfolding qpc_now_us
qpc_now_us_mono timer a b f h k w small = (
  subst (λ x. x / timer.freq ≤ qpc_now_us timer b)
      (sym (elapsed_lem timer.start a h (omega arith) (omega arith)))
      (subst (λ x. (a - timer.start) * 1000000 / timer.freq ≤ x / timer.freq) (sym exact)
        (div_mono _ _ timer.freq f (omega arith))),
  ap (λ x. x / timer.freq) exact,
)
  where
    exact : mul64 (sub64 b timer.start) 1000000 ≡ (b - timer.start) * 1000000
    exact = elapsed_lem timer.start b (omega arith) w small

-- One tick past that bound the product wraps, and the time runs backwards: the comment on `Timer`
-- asks that it never does so in a session. The frequency is at most 10^9 per second.
pub qpc_now_us_wraps :
    (timer : QpcTimer) (a : ℕ)
    → 0 < timer.freq
    → timer.freq ≤ 1000000000
    → timer.start ≤ a
    → a + 1 < u64_mod
    → (a - timer.start) * 1000000 < u64_mod
    → u64_mod ≤ (a + 1 - timer.start) * 1000000
    → qpc_now_us timer (a + 1) < qpc_now_us timer a
unfolding qpc_now_us
qpc_now_us_wraps timer a f g h k small large =
    let before = mul64 (sub64 a timer.start) 1000000 in
    let after = mul64 (sub64 (a + 1) timer.start) 1000000 in
    let e : before ≡ (a - timer.start) * 1000000 =
      elapsed_lem timer.start a h (omega arith) small in
    let ticks : sub64 (a + 1) timer.start ≡ a + 1 - timer.start =
      sub64-eq-sub (a + 1) timer.start k (omega arith) in
    let wrapped : after ≡ (a + 1 - timer.start) * 1000000 - u64_mod = omega (arith, ticks) in
    let far : after + timer.freq ≤ before = omega (arith, e, wrapped) in
    omega (arith, div_mono (after + timer.freq) before timer.freq f far, add-div_right after f)
