-- ===== src/Proc/Handshake.antt =====
-- A sleeper and a waker of Proyecto3/kernel/proc.c: `sleep_prepare`, `sleep` and `wakeup` in both orders.
use oscraft.Common.{ℕ, ◌+◌, ◌<◌, ◌≡◌, refl, true, ◌&&◌, none, some, arith, leb, ltb, ==_refl}
use oscraft.Monad.{Returns, ◌>>◌}
use oscraft.Kernel.{
  Kernel, Config, Channel, at_proc, at_ticks, at_object, runnable, running, same_channel,
}
use oscraft.Proc.Sleep.{sleep_prepare, sleep, wakeup, sched}
use oscraft.Proc.Wakeup.{wakeup_lem}

same_channel_refl : (c : Channel) → same_channel c c ≡ true
same_channel_refl (at_proc i) = ==_refl i
same_channel_refl at_ticks = refl
same_channel_refl (at_object a) = ==_refl a

-- A process that runs, prepares to sleep on a channel, and is woken on it before it calls `sleep`
-- does not sleep: `sleep` returns at once, and the process is still running and waits on nothing.
pub sleep-wakeup_before :
    (c : Config) (me : ℕ) (chan : Channel) (k : Kernel)
    → me < c.nproc
    → (k.procs me).state ≡ running
    → Returns
        (λ _ k'. ((k'.procs me).state ≡ running) × ((k'.procs me).chan ≡ none))
        ((sleep_prepare me (some chan) >> (wakeup c (some chan) >> sleep me)) k)
unfolding sleep_prepare sleep
sleep-wakeup_before c me chan k lt run =
    let inside : (leb 0 me && ltb me (0 + c.nproc)) ≡ true = ground arith in
    rw
      (
        wakeup_lem c (some chan),
        inside,
        ==_refl me,
        same_channel_refl chan,
        inside,
        ==_refl me,
        same_channel_refl chan,
        run,
      )
      (refl, refl)

-- A process that runs, prepares to sleep on a channel and sleeps is made runnable by a later wakeup
-- of the channel, and waits on nothing then.
pub sleep-wakeup_after :
    (c : Config) (me : ℕ) (chan : Channel) (k : Kernel)
    → me < c.nproc
    → (k.procs me).state ≡ running
    → Returns
        (λ _ k'. ((k'.procs me).state ≡ runnable) × ((k'.procs me).chan ≡ none))
        ((sleep_prepare me (some chan) >> (sleep me >> wakeup c (some chan))) k)
unfolding sleep_prepare sleep sched
sleep-wakeup_after c me chan k lt run =
    let inside : (leb 0 me && ltb me (0 + c.nproc)) ≡ true = ground arith in
    rw
      (==_refl me, ==_refl me, wakeup_lem c (some chan), inside, ==_refl me, same_channel_refl chan)
      (refl, refl)
