-- ===== src/Firmware/Usb/Tests.antt =====
-- The USB callbacks and the sending of firmware/src/main.rs on concrete bytes.
use flip_link.Base.{
  ℕ, ◌+◌, ◌≤◌, List, sym, ap, ◌∙◌, length, take, drop, take-append-drop, ◌≡◌, refl, arith, true,
  false, ◌||◌, ltb, [], ◌∷◌, ◌++◌, replicate, flatten, some, none, All, append-nil,
}
use flip_link.Proto.Bytes.{Bytes}
use flip_link.Proto.Frame.{Frame, hello, caps, stream_stop}
use flip_link.Core.Reader.{new, read_all}
use flip_link.Core.Device.Await.{sent_frame}
use flip_link.Firmware.Stream.{StreamBuffer, buffer_of, buffer_of-IsStreamBuffer, Sent}
use flip_link.Firmware.Loop.{
  Reply, chunk, overflow, Instruments, main_loop, max_idle, handle, handle_frame,
}
use flip_link.Firmware.Usb.{
  Event, receiving, usb, turn, access, listen, stored, rx_stream_cap, cdc_send_all, send_from,
  Bodies, tx_callback, input_callback, rx_callback,
}
use flip_link.Firmware.Usb.Heard.{arrived, heard_of, has_overflow, Keeps, heard_in_order}
use flip_link.Firmware.Usb.Served.{empty, requests_served, device_answers}
use flip_link.Firmware.Loop.Served.{running}
use flip_link.Firmware.Loop.Handled.{handle_all}
use flip_link.Proto.Frame.Wire.{wire, body}
use flip_link.Core.Reader.Chunks.{wires}
use flip_link.Base.Results.{ok}
use flip_link.Firmware.Usb.Sending.{
  AreSentAs, Fits, IsSentUpTo, send_all, cdc_send_all_lem, replies_read,
}

-- A chunk is heard; then more comes than a buffer of two bytes takes.
hears_and_overflows :
    (listen
      (buffer_of 2)
      (usb (7 ∷ []) ∷ turn ∷ turn ∷ usb (1 ∷ 2 ∷ 3 ∷ []) ∷ turn ∷ turn ∷ [])
      receiving
      empty).2
    ≡ chunk (7 ∷ []) ∷ overflow ∷ []
unfolding listen access stored
hears_and_overflows = refl

heard_in_order_example :
    Keeps
      (has_overflow
          (listen (buffer_of rx_stream_cap) (usb (7 ∷ []) ∷ turn ∷ turn ∷ []) receiving empty).2
        || false)
      (7 ∷ [])
      (heard_of []
        (listen (buffer_of rx_stream_cap) (usb (7 ∷ []) ∷ turn ∷ turn ∷ []) receiving empty).2)
      (listen (buffer_of rx_stream_cap) (usb (7 ∷ []) ∷ turn ∷ turn ∷ []) receiving empty).0
      (listen (buffer_of rx_stream_cap) (usb (7 ∷ []) ∷ turn ∷ turn ∷ []) receiving empty).1
heard_in_order_example =
    heard_in_order (buffer_of rx_stream_cap) rx_stream_cap (usb (7 ∷ []) ∷ turn ∷ turn ∷ [])
      (buffer_of-IsStreamBuffer rx_stream_cap)

-- The second wait fails.
cuts_a_frame : cdc_send_all (λ i. ltb i 1) (replicate 70 5) ≡ replicate 64 5 ∷ []
unfolding cdc_send_all send_from
cuts_a_frame = refl

callbacks :
    (tx_callback (some 0) ≡ some 1)
    × (tx_callback (some 1) ≡ some 1)
    × (rx_callback (buffer_of 2) (7 ∷ []) none ≡ none)
    × (input_callback 2 5 (some (2, 5)) true ≡ false)
    × (input_callback 2 5 (some (1, 5)) true ≡ true)
unfolding tx_callback rx_callback input_callback
callbacks = (refl, refl, refl, refl, refl)

sends_in_chunks :
    All Fits (cdc_send_all (λ i. ltb i 1) (replicate 70 5))
    × ((rest : Bytes) × ((flatten (cdc_send_all (λ i. ltb i 1) (replicate 70 5)) ++ rest
            ≡ replicate 70 5)
          × IsSentUpTo (λ i. ltb i 1) rest))
sends_in_chunks = cdc_send_all_lem (λ i. ltb i 1) (replicate 70 5)

abbrev no_bodies : Bodies
no_bodies = record {
  of_caps = λ c. 0xf6 ∷ [];
  of_resp = λ r. 0xf6 ∷ [];
  of_error = λ e. 0xf6 ∷ [];
  of_start = λ s. 0xf6 ∷ [];
  of_stop = λ s. 0xf6 ∷ [];
}

abbrev stop : Frame
stop = sent_frame stream_stop 5 (0xf6 ∷ [])

reads_replies :
    read_all
      (flatten (send_all no_bodies (λ i. true) (Reply.stream (Sent.stream_stop 5 0) ∷ [])) ∷ [])
      new
    ≡ (stop ∷ [], new)
unfolding flatten
reads_replies =
    replies_read no_bodies (λ i. true) (Reply.stream (Sent.stream_stop 5 0) ∷ []) (stop ∷ [])
      (flatten (send_all no_bodies (λ i. true) (Reply.stream (Sent.stream_stop 5 0) ∷ [])) ∷ [])
      (λ i. refl) (refl, tt) (omega arith, tt)
      (append-nil
        (flatten (send_all no_bodies (λ i. true) (Reply.stream (Sent.stream_stop 5 0) ∷ []))))

-- The world counts the stops.
abbrev counting : Instruments ℕ
counting = record {
  run = λ handler params w. (ok params, w);
  ir_start = λ seq w. (w, []);
  subghz_start = λ seq params w. (w, []);
  stop_captures = λ w. (w + 1, []);
  capturing = λ w. false;
  drain_captures = λ w. (w, []);
}

abbrev hello_request : Frame
hello_request = sent_frame hello 5 (0xf6 ∷ [])

abbrev in_two : List Event
in_two =
    usb (take 5 (wire 1 hello_request))
    ∷ turn
    ∷ turn
    ∷ usb (drop 5 (wire 1 hello_request))
    ∷ turn
    ∷ turn
    ∷ []

abbrev device_buffer : StreamBuffer
device_buffer = buffer_of rx_stream_cap

hears_both :
    (has_overflow (listen device_buffer in_two receiving empty).2 ≡ false)
    × ((listen device_buffer in_two receiving empty).0 ≡ receiving)
    × ((listen device_buffer in_two receiving empty).1 ≡ empty)
    × (length (listen device_buffer in_two receiving empty).2 ≤ max_idle)
unfolding listen access stored wire body
hears_both = (refl, refl, refl, omega arith)

both_arrive : arrived in_two ≡ wires (hello_request ∷ [])
both_arrive =
    let w = wire 1 hello_request in
    ap (λ l. take 5 w ++ l) (append-nil (drop 5 w)) ∙ take-append-drop 5 w ∙ sym (append-nil w)

serves_requests :
    (idle : ℕ) × (main_loop counting
        (λ payload. none)
        (running (listen device_buffer in_two receiving empty).2)
        (record { acc = []; idle = 0; world = 3 })
      ≡ (
        record {
          acc = [];
          idle = idle;
          world = (handle_all counting (λ payload. none) (hello_request ∷ []) 3).0;
        },
        (handle_all counting (λ payload. none) (hello_request ∷ []) 3).1,
      ))
serves_requests =
    requests_served counting (λ payload. none) (λ w. Unit {0}) (λ f. Unit {0}) device_buffer
      rx_stream_cap in_two (hello_request ∷ []) 3 (λ v p. refl) (λ f v q p. tt)
      (buffer_of-IsStreamBuffer rx_stream_cap) tt (tt, tt) ((omega arith, omega arith), tt)
      both_arrive hears_both.0 hears_both.1 hears_both.2 hears_both.3

abbrev answer : Frame
answer = sent_frame caps 5 (0xf6 ∷ [])

abbrev answer_bytes : Bytes
answer_bytes = flatten (
    send_all no_bodies (λ i. true)
      (main_loop counting (λ payload. none)
        (running (listen device_buffer in_two receiving empty).2)
        (record { acc = []; idle = 0; world = 3 })).1)

is_answer :
    AreSentAs no_bodies
      (handle_all counting (λ payload. none) (hello_request ∷ []) 3).1
      (answer ∷ [])
unfolding handle_all handle handle_frame
is_answer = (refl, tt)

device_answers_example : read_all (answer_bytes ∷ []) new ≡ (answer ∷ [], new)
unfolding flatten
device_answers_example =
    device_answers counting (λ payload. none) (λ w. Unit {0}) (λ f. Unit {0}) device_buffer
      rx_stream_cap in_two (hello_request ∷ []) 3 no_bodies (λ i. true) (answer ∷ [])
      (answer_bytes ∷ []) (λ v p. refl) (λ f v q p. tt) (buffer_of-IsStreamBuffer rx_stream_cap) tt
      (tt, tt) ((omega arith, omega arith), tt) both_arrive hears_both.0 hears_both.1 hears_both.2
      hears_both.3 (λ i. refl) is_answer (omega arith, tt) (append-nil answer_bytes)
