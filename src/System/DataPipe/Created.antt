-- ===== src/System/DataPipe/Created.antt =====
-- WhpCreateDataPipe gives the two ends of a new pipe.
use voodoo.Prelude.{
  ℕ, ◌+◌, ◌^◌, ◌<◌, ◌≡◌, ◌≢◌, refl, sym, ap, subst, ◌∙◌, [], ◌∷◌, ◌++◌, Option, some, ◌==◌,
  if◌then◌else◌, true, false, arith, length, get_or, length-append, get_or-append_last, if-true,
  if-false, ==_refl, ==_ne,
}
use voodoo.System.Types.{Core, free, new_data_pipe, DataPipeState, WhpResult, ok}
use voodoo.System.Table.{lookup, alloc}
use voodoo.System.Table.Alloc.{Allocated, alloc-Allocated}
use voodoo.System.Table.Free.{lookup-get_or, data_pipes-alloc, length-alloc}
use voodoo.System.Table.Sound.{IsSound, same_table-IsSound, alloc-IsSound}
use voodoo.System.DataPipe.{create}
use voodoo.System.DataPipe.Ring.{create-IsRing}
use voodoo.System.DataPipe.Ends.{Ends, producer_slot, consumer_slot}
use voodoo.System.DataCalls.{whp_create_data_pipe}

module _ (element capacity : ℕ) (c : Core) (v : IsSound c) (room : length c.slots + 1 < 2 ^ 32)
    (small : capacity < 2 ^ 32) where
  i : ℕ
  i = length c.data_pipes

  state : DataPipeState
  state = create (some (element, capacity))

  filed : Core
  filed = record c { data_pipes = c.data_pipes ++ state ∷ [] }

  one : ℕ × Core
  one = alloc filed (producer_slot i false)

  two : ℕ × Core
  two = alloc one.1 (consumer_slot i false)

  filed-IsSound : IsSound filed
  unfolding filed
  filed-IsSound = same_table-IsSound v refl refl refl

  one-Allocated : Allocated filed (producer_slot i false) one
  unfolding one filed
  one-Allocated = alloc-Allocated filed (producer_slot i false) filed-IsSound.table (omega arith)

  one-IsSound : IsSound one.1
  unfolding one
  one-IsSound = alloc-IsSound _ _ filed-IsSound refl refl

  two-Allocated : Allocated one.1 (consumer_slot i false) two
  unfolding two one filed
  two-Allocated =
      alloc-Allocated one.1 (consumer_slot i false) one-IsSound.table
        (omega (arith, length-alloc filed (producer_slot i false)))

  two-IsSound : IsSound two.1
  unfolding two
  two-IsSound = alloc-IsSound _ _ one-IsSound refl refl

  apart : one.0 ≢ two.0
  apart e = cc (
    two-Allocated.was_free,
    one-Allocated.slot one.0 ∙ if-true _ _ (==_refl one.0),
    ap (λ k. get_or one.1.slots k free) e,
  )

  pipes-two : two.1.data_pipes ≡ c.data_pipes ++ state ∷ []
  unfolding two one filed
  pipes-two =
      data_pipes-alloc one.1 (consumer_slot i false)
      ∙ data_pipes-alloc filed (producer_slot i false)

  lookup-two :
      (j : ℕ)
      → lookup two.1 j ≡ (
          if j == two.0
          then consumer_slot i false
          else if j == one.0
          then producer_slot i false
          else get_or c.slots j free)
  lookup-two j =
      lookup-get_or two.1 j two-IsSound.table.unused
      ∙ two-Allocated.slot j
      ∙ ap (λ s. if j == two.0 then consumer_slot i false else s)
          (unfold filed in one-Allocated.slot j)

  ends : Ends one.0 two.0 i state two.1
  unfolding i state
  ends = record {
    sound = two-IsSound;
    stands =
        subst (λ l. length c.data_pipes < length l) (sym pipes-two)
          (omega (arith, length-append c.data_pipes (create (some (element, capacity)) ∷ [])));
    at =
        ap (λ l. get_or l (length c.data_pipes) new_data_pipe) pipes-two
        ∙ get_or-append_last c.data_pipes (create (some (element, capacity))) new_data_pipe;
    ring = (create-IsRing element capacity small).0;
    producer =
        unfold create in
        lookup-two one.0 ∙ if-false _ _ (==_ne _ _ apart) ∙ if-true _ _ (==_refl one.0);
    consumer = unfold create in lookup-two two.0 ∙ if-true _ _ (==_refl two.0);
  }

  created :
      ◌≡◌ {A = WhpResult × Option (ℕ × ℕ) × Core}
        (whp_create_data_pipe (some (element, capacity)) true c)
        (ok, some (one.0, two.0), two.1)
  unfolding whp_create_data_pipe one two filed state i
  created = refl

  -- In a sound core with two handles to spare, WhpCreateDataPipe with a capacity below 2 ^ 32 gives
  -- two different handles that are the ends of a pipe in its first state.
  pub created-Ends :
      let (result, handles, d) = whp_create_data_pipe (some (element, capacity)) true c in
      (p : ℕ) × (q : ℕ) × (handles ≡ some (p, q))
      × (p ≢ q)
      × Ends p q (length c.data_pipes) (create (some (element, capacity))) d
  unfolding i state
  created-Ends = (
    one.0,
    two.0,
    ap (λ r. r.1) created,
    apart,
    subst (λ r. Ends one.0 two.0 i state r.2) (sym created) ends,
  )
