-- ===== src/System/DataPipe/Lent.antt =====
-- A plain read while a two-phase read holds the same bytes.
use voodoo.Prelude.{◌+◌, ◌-◌, ◌%◌, ◌^◌, ◌≤◌, ◌<◌, ◌≡◌, refl, arith, none, some}
use voodoo.System.Types.{DataPipeState, ok}
use voodoo.System.DataPipe.{begin_read, end_read, read_data}
use voodoo.System.DataPipe.Ring.{IsRing, shrunk}
use voodoo.System.DataPipe.Refine.{read-shrunk}

-- A pipe that has lent out its unread bytes.
abbrev lent_out : DataPipeState → DataPipeState
lent_out s = record s { two_phase_read = some s.r; two_phase_read_max = s.available }

module _ (s : DataPipeState) (v : IsRing s) (pos : 0 < s.available)
    (whole_elements : s.available % s.element_size ≡ 0) where
  begin_read-lent_out :
      s.two_phase_read ≡ none
      → s.r + s.available ≤ s.capacity
      → begin_read s s.available ≡ (ok, some s.r, some s.available, lent_out s)
  unfolding begin_read
  begin_read-lent_out idle contig = ground arith

  lent_out-IsRing : IsRing (lent_out s)
  lent_out-IsRing = ground arith

  read_data-lent_out :
      ((read_data (lent_out s) s.available).0 ≡ ok)
      × ((read_data (lent_out s) s.available).3 ≡ shrunk (lent_out s) s.available)
  unfolding read_data
  read_data-lent_out = ground (arith, read-shrunk (lent_out s) s.available lent_out-IsRing)

  end_read-lent_out :
      ((end_read (shrunk (lent_out s) s.available) s.available).0 ≡ ok)
      × ((end_read (shrunk (lent_out s) s.available) s.available).1.available
          ≡ 2 ^ 32 - s.available)
      × ((end_read (shrunk (lent_out s) s.available) s.available).1.capacity ≡ s.capacity)
  unfolding end_read
  end_read-lent_out = ground arith

-- On a sound ring of less than 2 ^ 31 bytes whose unread bytes are whole elements, at least one, and
-- do not go round the end of the storage, with no two-phase read begun: WhpBeginReadData of all of
-- them, a WhpReadData of all of them and a WhpEndReadData of all of them succeed in turn, and leave
-- `available` at 2 ^ 32 less their number, on a ring that is not sound.
pub end_read_after_read_data :
    (s : DataPipeState)
    → IsRing s
    → s.two_phase_read ≡ none
    → s.capacity < 2 ^ 31
    → 0 < s.available
    → s.available % s.element_size ≡ 0
    → s.r + s.available ≤ s.capacity
    → let (begun, _, lent, s1) = begin_read s s.available in
      let (read, _, _, s2) = read_data s1 s.available in
      let (ended, s3) = end_read s2 s.available in
      (begun ≡ ok)
      × (lent ≡ some s.available)
      × (read ≡ ok)
      × (ended ≡ ok)
      × (s3.available ≡ 2 ^ 32 - s.available)
      × ¬ IsRing s3
end_read_after_read_data s v idle small pos whole_elements contig =
    rw (begin_read-lent_out s v pos whole_elements idle contig) (
      refl,
      refl,
      read.0,
      rw read.1 ended.0,
      rw read.1 ended.1,
      rw read.1 (λ w. omega (arith, w.fits, ended)),
    )
  where
    read :
        ((read_data (lent_out s) s.available).0 ≡ ok)
        × ((read_data (lent_out s) s.available).3 ≡ shrunk (lent_out s) s.available)
    read = read_data-lent_out s v pos whole_elements

    ended :
        ((end_read (shrunk (lent_out s) s.available) s.available).0 ≡ ok)
        × ((end_read (shrunk (lent_out s) s.available) s.available).1.available
            ≡ 2 ^ 32 - s.available)
        × ((end_read (shrunk (lent_out s) s.available) s.available).1.capacity ≡ s.capacity)
    ended = end_read-lent_out s v pos whole_elements
