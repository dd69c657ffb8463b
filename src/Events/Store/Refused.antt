-- ===== src/Events/Store/Refused.antt =====
-- The ranges that `validateRange` refuses for their start.
use soroban_rpc.Common.{ℕ, ◌+◌, ◌^◌, ◌≤◌, ◌<◌, ◌≡◌, refl, lt→ltb, le→ltb, le→leb, false, arith, err}
use soroban_rpc.Window.{add_u32}
use soroban_rpc.Events.Cursor.Order.{key}
use soroban_rpc.Events.Store.{
  Range, ledger_start, check_range, start_before_oldest, start_after_newest,
}
use soroban_rpc.Events.Store.Bounds.{Bounded, ledger_start-InRange, before-key, at_least-key}

pub check_range-before :
    (first count : ℕ) (r : Range)
    → first + count < 2 ^ 32
    → Bounded r
    → r.clamp_start ≡ false
    → key r.start < key (ledger_start first)
    → check_range first count r ≡ err start_before_oldest
unfolding check_range
check_range-before first count r room b fixed below =
    let lowest = ledger_start-InRange first (omega arith) in
    rw
      (
        before-key r.start (ledger_start first) b.start_range lowest,
        lt→ltb (key r.start) (key (ledger_start first)) below,
        fixed,
      )
      refl

pub check_range-after :
    (first count : ℕ) (r : Range)
    → first + count < 2 ^ 32
    → Bounded r
    → key (ledger_start first) ≤ key r.start
    → key (ledger_start (first + count)) ≤ key r.start
    → check_range first count r ≡ err start_after_newest
unfolding check_range
check_range-after first count r room b above beyond =
    let top : add_u32 first count ≡ first + count = omega arith in
    let lowest = ledger_start-InRange first (omega arith) in
    let highest = ledger_start-InRange (first + count) room in
    rw
      (
        before-key r.start (ledger_start first) b.start_range lowest,
        le→ltb (key r.start) (key (ledger_start first)) above,
        top,
        at_least-key r.start (ledger_start (first + count)) b.start_range highest,
        le→leb (key (ledger_start (first + count))) (key r.start) beyond,
      )
      refl
