-- ===== src/System/DataPipe/Runs.antt =====
-- Whole runs on the two handles of a data pipe against runs of its queue.
use voodoo.Prelude.{ℕ, ◌≡◌, ◌≢◌, refl, ap, ◌∙◌, List, [], ◌∷◌, none, true}
use voodoo.System.Types.{Core, DataPipeState}
use voodoo.System.Platform.{Host}
use voodoo.System.Messages.{Callbacks}
use voodoo.System.Close.{close}
use voodoo.System.DataPipe.Queue.{view}
use voodoo.System.DataPipe.Ends.{
  PipeCall, writes, reads, closes_producer, closes_consumer, run_calls, run_queue, Ends,
}
use voodoo.System.DataCalls.{whp_write_data, whp_read_data}
use voodoo.System.DataPipe.Steps.{write-Writes, read-Reads}
use voodoo.System.DataPipe.Closing.{close_producer-Closes, close_consumer-Closes}

-- Where two handles of a sound core are the ends of one data pipe with a sound ring, every sequence
-- of WhpWriteData, WhpReadData and WhpClose on them gets the answers that the bounded queue of the
-- unread bytes gives; a call on an end that has been closed, a second close included, is answered
-- with invalid_argument.
pub run_pipe_refines :
    (host : Host) (cb : Callbacks) (p q i : ℕ)
    → p ≢ q
    → (cs : List PipeCall) (s : DataPipeState) (c : Core) → Ends p q i s c
    → run_calls host cb p q c cs ≡ run_queue (view s) cs
unfolding run_calls run_queue
run_pipe_refines host cb p q i n [] s c e = refl
run_pipe_refines host cb p q i n (writes l ∷ cs) s c e =
    let x = whp_write_data p l true c in
    let a = write-Writes p q i s c e l in
    ap (λ r. (x.0, [], x.1) ∷ r) (run_pipe_refines host cb p q i n cs a.0 x.2 a.1)
    ∙ ap (λ y. (y.0, [], y.1) ∷ run_queue y.2 cs) a.2
run_pipe_refines host cb p q i n (reads k ∷ cs) s c e =
    let x = whp_read_data q k true c in
    let a = read-Reads p q i s c e k in
    ap (λ r. (x.0, x.1, x.2) ∷ r) (run_pipe_refines host cb p q i n cs a.0 x.3 a.1)
    ∙ ap (λ y. (y.0, y.1, y.2) ∷ run_queue y.3 cs) a.2
run_pipe_refines host cb p q i n (closes_producer ∷ cs) s c e =
    let x = close host cb p c in
    let a = close_producer-Closes p q i s c e n host cb in
    ap (λ r. (x.0, [], none) ∷ r) (run_pipe_refines host cb p q i n cs a.0 x.1 a.1)
    ∙ ap (λ y. (y.0, [], none) ∷ run_queue y.1 cs) a.2
run_pipe_refines host cb p q i n (closes_consumer ∷ cs) s c e =
    let x = close host cb q c in
    let a = close_consumer-Closes p q i s c e n host cb in
    ap (λ r. (x.0, [], none) ∷ r) (run_pipe_refines host cb p q i n cs a.0 x.1 a.1)
    ∙ ap (λ y. (y.0, [], none) ∷ run_queue y.1 cs) a.2
