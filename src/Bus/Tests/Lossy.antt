-- ===== src/Bus/Tests/Lossy.antt =====
-- Lossy pushes and pops on two slots for messages of up to four bytes.
use message_us_cld.Bus.Lossy.Threads.{
  System, Reach, here, next, marks, commits, publishes, looks, begins, reads_size, reads_byte,
  confirms, after_mark, after_commit, after_publish, after_look, after_begin, after_size,
  after_byte, after_confirm,
}
use message_us_cld.Bus.Lossy.Threads.Valid.{AllUntorn}
use message_us_cld.Bus.Lossy.Threads.Untorn.{lossy_start, accepted-AllUntorn}
use message_us_cld.Prelude.{
  ℕ, ◌+◌, add64, word32, ◌%◌, ◌≡◌, ◌≢◌, refl, arith, Bool, true, false, [], ◌∷◌, get_or,
}
use message_us_cld.Bus.Layout.{slot_index, compute_slot_stride}
use message_us_cld.Bus.Segment.{Segment, fresh, zero_slot}
use message_us_cld.Bus.Endpoints.{Producer, Consumer, blank, overwrite, producer, consumer, publish}
use message_us_cld.Bus.Threads.Valid.{message}
use message_us_cld.Bus.Lossy.{mark_writing, write_over, overwrite_push, move_to, try_pop_lossy}
use message_us_cld.Bus.Lossy.Whole.{overwrite_push_lem}

abbrev pair : Segment
pair = fresh 7 2 4

abbrev writer : Producer
writer = (producer 11 pair).0

abbrev at : ℕ
at = slot_index writer.capacity writer.write_pos

overwrite_push_lem_example :
    ((overwrite_push pair writer (5 ∷ [])).0 ≡ true)
    × ((get_or (mark_writing pair writer).slots at blank).generation % 2 ≡ 1)
    × (message (get_or (mark_writing pair writer).slots at blank)
        ≡ message (get_or pair.slots at blank))
    × (message (
          get_or
            (overwrite_push pair writer (5 ∷ [])).2.slots
            (slot_index writer.capacity writer.write_pos)
            blank)
        ≡ (1, 5 ∷ []))
    × ((get_or (overwrite_push pair writer (5 ∷ [])).2.slots at blank).generation
        ≡ ((get_or pair.slots at blank).generation + 2) % word32)
    × ((get_or (overwrite_push pair writer (5 ∷ [])).2.slots at blank).generation % 2 ≡ 0)
    × ((i : ℕ)
        → slot_index writer.capacity writer.write_pos ≢ i
        → get_or (overwrite_push pair writer (5 ∷ [])).2.slots i blank ≡ get_or pair.slots i blank)
    × ((overwrite_push pair writer (5 ∷ [])).1.write_pos ≡ add64 writer.write_pos 1)
    × ((overwrite_push pair writer (5 ∷ [])).2.control.write_pos ≡ add64 writer.write_pos 1)
unfolding fresh producer slot_index zero_slot compute_slot_stride
overwrite_push_lem_example =
    overwrite_push_lem pair writer (5 ∷ []) refl (omega arith) (omega arith) refl

-- The segment and the producer after the messages 1 and 2, and after a third one.
second : Bool × Producer × Segment
second =
    overwrite_push (overwrite_push pair writer (1 ∷ [])).2 (overwrite_push pair writer (1 ∷ [])).1
      (2 ∷ [])

third : Bool × Producer × Segment
third = overwrite_push second.2 second.1 (3 ∷ [])

-- A consumer that came before the third message.
reader : Consumer
reader = (consumer 12 second.2).0

-- A message of one byte is pushed, and popped while the next push has begun.
abbrev first_in : System
first_in = after_publish (after_commit (after_mark (lossy_start 11 12 pair) (5 ∷ [])) (5 ∷ []) 0)

abbrev popped : System
popped =
    after_confirm
      (after_mark (after_byte (after_size (after_begin (after_look first_in)) 2) 2 1 []) (6 ∷ [])) 2
      1 (5 ∷ [])

popped_run : Reach 4 (lossy_start 11 12 pair) popped
unfolding fresh producer consumer mark_writing write_over overwrite publish slot_index zero_slot
    compute_slot_stride
popped_run =
    next
      (next
        (next
          (next
            (next
              (next
                (next
                  (next (next here (marks (5 ∷ []) refl (omega arith) refl))
                    (commits (5 ∷ []) 0 refl refl))
                  (publishes refl refl))
                (looks refl refl))
              (begins refl refl))
            (reads_size 2 refl refl))
          (reads_byte 2 1 [] refl (omega arith) refl))
        (marks (6 ∷ []) refl (omega arith) refl))
      (confirms 2 1 (5 ∷ []) refl refl refl)

accepted-AllUntorn_example : AllUntorn 2 4 popped.committed popped.accepted
unfolding mark_writing consumer producer fresh publish write_over slot_index
accepted-AllUntorn_example =
    accepted-AllUntorn 11 12 7 1 4 4 popped (omega arith) (omega arith) popped_run (omega arith, tt)

popped_value : popped.accepted ≡ record { position = 0; size = 1; bytes = 5 ∷ []; changes = 0 } ∷ []
unfolding fresh producer consumer mark_writing write_over overwrite publish slot_index zero_slot
    compute_slot_stride
popped_value = refl

-- The third message has taken the place of the first, and the write position that the consumer
-- knows is one behind: the pop returns the third message and reports no loss.
stale_pop : (try_pop_lossy third.2 third.2 reader 4).0.bytes ≡ 3 ∷ []
unfolding third second reader fresh producer consumer overwrite_push write_over mark_writing
    overwrite publish try_pop_lossy move_to slot_index zero_slot compute_slot_stride
stale_pop = refl

stale_unnoticed : (try_pop_lossy third.2 third.2 reader 4).0.overwritten ≡ false
unfolding third second reader fresh producer consumer overwrite_push write_over mark_writing
    overwrite publish try_pop_lossy move_to slot_index zero_slot compute_slot_stride
stale_unnoticed = refl
