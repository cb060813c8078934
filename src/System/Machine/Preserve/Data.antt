-- ===== src/System/Machine/Preserve/Data.antt =====
-- The calls on data pipes keep the handle table sound.
use voodoo.Prelude.{ℕ, refl, List, true, Option, Option-cases, inl, inr}
use voodoo.System.Types.{Core, WhpResult, ok}
use voodoo.System.Table.{lookup}
use voodoo.System.Table.Sound.{IsSound, same_table-IsSound, alloc-IsSound}
use voodoo.System.Machine.Preserve.Blocks.{collect-IsSound}
use voodoo.System.Types.{DataPipeState}
use voodoo.System.Signals.{data_pipe_at}
use voodoo.System.DataPipe.{write_data, read_data, end_write, end_read}
use voodoo.System.Close.{put_data_pipe}
use voodoo.System.DataCalls.{
  producer_of, consumer_of, stored, whp_create_data_pipe, whp_write_data, whp_read_data,
  whp_begin_write_data, whp_end_write_data, whp_begin_read_data, whp_end_read_data,
}

pub create_data_pipe-IsSound :
    (options : Option (ℕ × ℕ)) (c : Core)
    → IsSound c
    → IsSound (whp_create_data_pipe options true c).2
unfolding whp_create_data_pipe
create_data_pipe-IsSound options c v =
    alloc-IsSound _ _ (alloc-IsSound _ _ (same_table-IsSound v refl refl refl) refl refl) refl refl

put_data_pipe-IsSound :
    (c : Core) (i : ℕ) (s : DataPipeState) → IsSound c → IsSound (put_data_pipe c i s)
put_data_pipe-IsSound c i s v = same_table-IsSound v refl refl refl

stored-IsSound :
    (c : Core) (i : ℕ) (r : WhpResult) (s : DataPipeState) → IsSound c → IsSound (stored c i r s)
stored-IsSound c i ok s v = collect-IsSound _ (put_data_pipe-IsSound c i s v)
stored-IsSound c i _ s v = put_data_pipe-IsSound c i s v

module _ (h : ℕ) (c : Core) (v : IsSound c) where
  pub write_data-IsSound : (l : List ℕ) → IsSound (whp_write_data h l true c).2
  unfolding whp_write_data
  write_data-IsSound l = elim (Option-cases (producer_of (lookup c h))) [
    | inl e ↦ rw (e, whp_write_data) v
    | inr (i, e) ↦
        rw (e, whp_write_data) (stored-IsSound c i (write_data (data_pipe_at c i) l).0 _ v)
  ]

  pub read_data-IsSound : (n : ℕ) → IsSound (whp_read_data h n true c).3
  unfolding whp_read_data
  read_data-IsSound n = elim (Option-cases (consumer_of (lookup c h))) [
    | inl e ↦ rw (e, whp_read_data) v
    | inr (i, e) ↦ rw (e, whp_read_data) (stored-IsSound c i (read_data (data_pipe_at c i) n).0 _ v)
  ]

  pub begin_write-IsSound : (n : ℕ) → IsSound (whp_begin_write_data h n true c).3
  unfolding whp_begin_write_data
  begin_write-IsSound n = elim (Option-cases (producer_of (lookup c h))) [
    | inl e ↦ rw (e, whp_begin_write_data) v
    | inr (i, e) ↦ rw (e, whp_begin_write_data) (put_data_pipe-IsSound c i _ v)
  ]

  pub end_write-IsSound : (n : ℕ) → IsSound (whp_end_write_data h n c).1
  unfolding whp_end_write_data
  end_write-IsSound n = elim (Option-cases (producer_of (lookup c h))) [
    | inl e ↦ rw (e, whp_end_write_data) v
    | inr (i, e) ↦
        rw (e, whp_end_write_data) (stored-IsSound c i (end_write (data_pipe_at c i) n).0 _ v)
  ]

  pub begin_read-IsSound : (n : ℕ) → IsSound (whp_begin_read_data h n true c).3
  unfolding whp_begin_read_data
  begin_read-IsSound n = elim (Option-cases (consumer_of (lookup c h))) [
    | inl e ↦ rw (e, whp_begin_read_data) v
    | inr (i, e) ↦ rw (e, whp_begin_read_data) (put_data_pipe-IsSound c i _ v)
  ]

  pub end_read-IsSound : (n : ℕ) → IsSound (whp_end_read_data h n c).1
  unfolding whp_end_read_data
  end_read-IsSound n = elim (Option-cases (consumer_of (lookup c h))) [
    | inl e ↦ rw (e, whp_end_read_data) v
    | inr (i, e) ↦
        rw (e, whp_end_read_data) (stored-IsSound c i (end_read (data_pipe_at c i) n).0 _ v)
  ]
