-- ===== src/Connection/Writer/Cleanup.antt =====
-- How the writer stops and fails, and what a request is to come to.
use libamqp.Prelude.{ℕ, ◌≡◌, inl, inr, refl, true, false, List, ◌++◌, arith, ◌==◌, Bool-cases}
use libamqp.Prelude.Outcome.{Outcome, returns}
use libamqp.Connection.Writer.{
  stopping, stopped, failed, Write, Writer, write_complete, writer_fail, writer_stop,
  writer_cleanup, cleanup_resources, cleanup_write_watcher, call_done_callback, confirm,
}
use libamqp.Connection.Writer.Invariant.{IsOver, IsWriter, is_stopped}

pub writer_fail-IsOver :
    (w : Writer) (given : List ℕ)
    → ((lost : List ℕ) × (w.written ++ lost ≡ given))
    → IsOver (writer_fail w) given
unfolding writer_fail cleanup_resources cleanup_write_watcher
writer_fail-IsOver w given p = elim (Bool-cases w.watcher) [
  | inl e ↦ record { queue = λ i. refl; prefix = rw e p }
  | inr e ↦ record { queue = λ i. refl; prefix = rw e p }
]

pub writer_fail_state : (w : Writer) → (writer_fail w).state ≡ failed
unfolding writer_fail cleanup_resources cleanup_write_watcher
writer_fail_state w = ground arith

pub writer_cleanup-IsOver :
    (w : Writer) (given : List ℕ)
    → ((lost : List ℕ) × (w.written ++ lost ≡ given))
    → IsOver (writer_cleanup w) given
unfolding writer_cleanup cleanup_resources cleanup_write_watcher
writer_cleanup-IsOver w given p = elim (Bool-cases w.watcher) [
  | inl e ↦ record { queue = λ i. refl; prefix = rw e p }
  | inr e ↦ record { queue = λ i. refl; prefix = rw e p }
]

pub writer_cleanup_state : (w : Writer) → (writer_cleanup w).state ≡ stopped
unfolding writer_cleanup cleanup_resources cleanup_write_watcher
writer_cleanup_state w = ground arith

-- The writer after the callback of its stop.
abbrev pub confirmed : Writer → Writer
confirmed w = confirm (record w { stopped_callback = false })

abbrev pub stopped_writer : Writer → Writer
stopped_writer w = confirmed (writer_cleanup (record w { stopped_callback = true }))

pub writer_stop_runs : (w : Writer) → writer_stop w ≡ returns (stopped_writer w)
unfolding writer_stop call_done_callback writer_cleanup cleanup_resources cleanup_write_watcher
writer_stop_runs w = elim (Bool-cases w.watcher) [ inl e ↦ rw e refl | inr e ↦ rw e refl ]

pub stopped_writer-IsWriter :
    (w : Writer) (given : List ℕ)
    → ((lost : List ℕ) × (w.written ++ lost ≡ given))
    → IsWriter (stopped_writer w) given
stopped_writer-IsWriter w given p =
    let over = writer_cleanup-IsOver (record w { stopped_callback = true }) given p in
    is_stopped (writer_cleanup_state (record w { stopped_callback = true }))
      (record { queue = over.queue; prefix = over.prefix })

-- What a request is to come to.
abbrev pub Serves : Outcome (List Write × Writer) → List ℕ → Type 0
Serves o given = (socket : List Write) × (w : Writer) × (o ≡ returns (socket, w)) × IsWriter w given

pub write_complete_stopping :
    (w : Writer) → w.state ≡ stopping → (w.start == w.end) ≡ true → write_complete w ≡ writer_stop w
unfolding write_complete
write_complete_stopping w at e = ground (arith, at, e)
