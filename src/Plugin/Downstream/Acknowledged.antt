-- ===== src/Plugin/Downstream/Acknowledged.antt =====
-- The promise that `CompletedUpTo` makes to the upstream plugin, over one call and over many.
use dqcsim_rs.Common.{◌≤◌, ◌≡◌, refl, ok, All}
use dqcsim_rs.Plugin.State.{PluginState}
use dqcsim_rs.Plugin.Downstream.{check_completed_up_to}
use dqcsim_rs.Plugin.Downstream.Completion.{
  CanSend, Rising, finished, low-le-completion, unfinished-Rising, finished-le, completion_lem,
  unfinished, check_completed_up_to_lem,
}

-- The invariant of the acknowledgement side of a plugin: the upstream numbers that wait rise strictly
-- above the number announced last, up to the number issued last.
abbrev pub IsRising : {R : Type 0} → PluginState R → Type 0
IsRising s = Rising s.upstream_issued_up_to s.upstream_completed_up_to s.upstream_postponed

-- Where the upstream plugin can be reached and the invariant holds, `check_completed_up_to` succeeds
-- and keeps the invariant, so that every request that still waits has a number above the one
-- announced; the announced number never falls; and every request that was dropped from the queue,
-- because the downstream plugin has completed what it needs, is covered by the announced number.
pub check_completed_up_to-IsRising :
    {R : Type 0} (s : PluginState R)
    → CanSend s.connection
    → IsRising s
    → let (r, s') = check_completed_up_to s in
      (r ≡ ok tt)
      × IsRising s'
      × (s.upstream_completed_up_to ≤ s'.upstream_completed_up_to)
      × All
          (λ e. e.1 ≤ s'.upstream_completed_up_to)
          (finished s.downstream_sequence_rx s.upstream_postponed)
check_completed_up_to-IsRising s c r =
    let issued = s.upstream_issued_up_to in
    let low = s.upstream_completed_up_to in
    let rx = s.downstream_sequence_rx in
    let q = s.upstream_postponed in
    let e = completion_lem issued _ (unfinished rx q) (unfinished-Rising issued low rx q r) in
    rw (check_completed_up_to_lem s c r) (
      refl,
      rw e at (unfinished-Rising issued low rx q r),
      rw e at (low-le-completion issued low rx q r),
      rw e at (finished-le issued low rx q r),
    )
