-- ===== src/System/Close/Laws.antt =====
-- WhpClose: the handle is dead, and the other end of a pipe is told.
use voodoo.Prelude.{
  ℕ, ◌≡◌, ◌≢◌, refl, sym, ap, subst, ◌∙◌, Bool, true, false, ◌==◌, if◌then◌else◌, if-true, if-false,
  ==_refl, ==_ne,
}
use voodoo.System.Types.{
  Core, Slot, free, message_pipe, message, trap, data_pipe_producer, data_pipe_consumer,
  shared_buffer, platform, WhpResult, ok, invalid_argument,
}
use voodoo.System.Table.{lookup, free_handle}
use voodoo.System.Table.Validity.{is_free}
use voodoo.System.Table.Free.{lookup-Live, lookup-free_handle, lookup-slots}
use voodoo.System.Table.Sound.{IsSound}
use voodoo.System.Traps.{collect_trap_events, close_trap}
use voodoo.System.Traps.Frame.{Collected, Kept, Kept-other}
use voodoo.System.Traps.Collect.{collect_trap_events-Collected}
use voodoo.System.Messages.{Callbacks}
use voodoo.System.Platform.{Host, close_native}
use voodoo.System.Close.{close_object, release, close_slot, close}
use voodoo.System.Machine.Preserve.Buffers.{
  close_native-SameTable, drop_buffer-SameTable, release-IsSound,
}

-- What stays shut while its object is closed: the slots.
slots-close_object :
    (host : Host) (h : ℕ) (s : Slot) (c : Core) → (close_object host h s c).slots ≡ c.slots
unfolding close_object close_trap
slots-close_object host h (platform p) c = owned p.owns
  where
    owned : (b : Bool) → (if b then close_native host p c else c).slots ≡ c.slots
    owned true = (close_native-SameTable host p c).slots
    owned false = refl
slots-close_object host h free c = refl
slots-close_object host h (message_pipe e) c = refl
slots-close_object host h (message m) c = refl
slots-close_object host h (trap t) c = refl
slots-close_object host h (data_pipe_producer e) c = refl
slots-close_object host h (data_pipe_consumer e) c = refl
slots-close_object host h (shared_buffer b) c = refl

slots-release :
    (host : Host) (h : ℕ) (s : Slot) (c : Core)
    → (release host h s c).slots ≡ (free_handle (close_object host h s c) h).slots
unfolding release
slots-release host h (shared_buffer b) c =
    (drop_buffer-SameTable host b (free_handle (close_object host h (shared_buffer b) c) h)).slots
slots-release host h free c = refl
slots-release host h (message_pipe e) c = refl
slots-release host h (message m) c = refl
slots-release host h (trap t) c = refl
slots-release host h (data_pipe_producer e) c = refl
slots-release host h (data_pipe_consumer e) c = refl
slots-release host h (platform p) c = refl

module _ (host : Host) (h : ℕ) (s : Slot) (c : Core) (e : lookup c h ≡ s)
    (f : is_free s ≡ false) where
  pub lookup-release :
      (j : ℕ) → lookup (release host h s c) j ≡ (if j == h then free else lookup c j)
  lookup-release j =
      lookup-slots (free_handle closed h) (release host h s c) j (slots-release host h s c)
      ∙ lookup-free_handle closed h s (lookup-Live closed h s (lookup-slots c closed h still ∙ e) f)
          j
      ∙ ap (λ t. if j == h then free else t) (lookup-slots c closed j still)
    where
      closed : Core
      closed = close_object host h s c

      still : closed.slots ≡ c.slots
      still = slots-close_object host h s c

abbrev pub is_message : Slot → Bool
is_message (message m) = true
is_message _ = false

module _ (host : Host) (h : ℕ) (s : Slot) (c : Core) (v : IsSound c) (e : lookup c h ≡ s)
    (f : is_free s ≡ false) where
  -- What CollectTrapEvents then does.
  Released : Collected (release host h s c) (collect_trap_events (release host h s c))
  Released =
      let w : IsSound (release host h s c) = release-IsSound host h c v s e f in
      collect_trap_events-Collected (release host h s c) w.table w.listed

  collect-release :
      (j : ℕ)
      → Kept
          (if j == h then free else lookup c j)
          (lookup (collect_trap_events (release host h s c)) j)
  collect-release j =
      subst (λ t. Kept t (lookup (collect_trap_events (release host h s c)) j))
        (lookup-release host h s c e f j) (Released.slots j)

  pub collect-release_self : lookup (collect_trap_events (release host h s c)) h ≡ free
  collect-release_self =
      Kept-other
        (subst (λ t. Kept t (lookup (collect_trap_events (release host h s c)) h))
          (if-true _ _ (==_refl h)) (collect-release h))
        refl

  pub collect-release_other :
      (j : ℕ) → j ≢ h → Kept (lookup c j) (lookup (collect_trap_events (release host h s c)) j)
  collect-release_other j n =
      subst (λ t. Kept t (lookup (collect_trap_events (release host h s c)) j))
        (if-false _ _ (==_ne j h n)) (collect-release j)

close_slot_lem :
    (host : Host) (cb : Callbacks) (h : ℕ) (s : Slot) (c : Core)
    → is_free s ≡ false
    → is_message s ≡ false
    → close_slot host cb h s c ≡ (ok, collect_trap_events (release host h s c))
close_slot_lem host cb h free c f n = cc
close_slot_lem host cb h (message m) c f n = cc
close_slot_lem host cb h (message_pipe x) c f n = refl
close_slot_lem host cb h (trap x) c f n = refl
close_slot_lem host cb h (data_pipe_producer x) c f n = refl
close_slot_lem host cb h (data_pipe_consumer x) c f n = refl
close_slot_lem host cb h (shared_buffer x) c f n = refl
close_slot_lem host cb h (platform x) c f n = refl

-- What a caller sees of WhpClose: it succeeds, the handle names nothing, and every other handle
-- names what it did, up to the trap that an event disarms.
pub record Closed (h : ℕ) (c : Core) (out : WhpResult × Core) : Type 0 where
  pub result : out.0 ≡ ok
  pub gone : lookup out.1 h ≡ free
  pub others : (j : ℕ) → j ≢ h → Kept (lookup c j) (lookup out.1 j)

-- In a sound core, WhpClose of a live handle that is not a message succeeds and frees that handle;
-- every other handle names the object that it named, or is a trap that has been disarmed.
pub close-Closed :
    (host : Host) (cb : Callbacks) (h : ℕ) (c : Core)
    → IsSound c
    → is_free (lookup c h) ≡ false
    → is_message (lookup c h) ≡ false
    → Closed h c (close host cb h c)
unfolding close
close-Closed host cb h c v f n =
    subst (Closed h c) (sym (close_slot_lem host cb h (lookup c h) c f n)) (record {
      result = refl;
      gone = collect-release_self host h (lookup c h) c v refl f;
      others = collect-release_other host h (lookup c h) c v refl f;
    })

-- In a sound core, once a live handle that is not a message has been closed, a second WhpClose of
-- it fails with invalid_argument and changes nothing.
pub close-close :
    (host : Host) (cb : Callbacks) (h : ℕ) (c : Core)
    → IsSound c
    → is_free (lookup c h) ≡ false
    → is_message (lookup c h) ≡ false
    → close host cb h (close host cb h c).1 ≡ (invalid_argument, (close host cb h c).1)
close-close host cb h c v f n =
    let d : Core = (close host cb h c).1 in
    unfold close in ap (λ s. close_slot host cb h s d) (close-Closed host cb h c v f n).gone
