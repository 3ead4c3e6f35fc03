-- ===== src/Firmware/Loop/Served.antt =====
-- The loop of `main` in firmware/src/main.rs over a whole stream of frames, while nothing is
-- captured.
use flip_link.Base.{
  ℕ, suc, ◌+◌, ◌-◌, ◌≤◌, ◌≡◌, refl, sym, subst, ap, ◌∙◌, arith, Bool, true, ltb, if-either,
  if◌then◌else◌, List, [], ◌∷◌, ◌++◌, length, length-append, append_assoc, append-nil, All,
  All-append_left, All-append_right, Option,
}
use flip_link.Proto.Bytes.{Bytes}
use flip_link.Proto.Frame.{Frame}
use flip_link.Proto.Messages.{Req}
use flip_link.Core.Reader.{drain}
use flip_link.Core.Reader.Chunks.{reader, drain_again, wires, drain-wires}
use flip_link.Proto.Frame.Stream.{decode-nil}
use flip_link.Proto.Frame.Wire.{IsFrame}
use flip_link.Core.Reader.Prefix.{Fit, drain_front}
use flip_link.Firmware.Loop.{
  Instruments, Reply, handle, Received, overflow, nothing, chunk, State, round, main_loop,
  max_frame, max_idle,
}
use flip_link.Firmware.Loop.Handled.{handle_all, gather_lem}

-- No byte was lost, and a chunk has 64 bytes at most.
abbrev pub IsHeard : Received → Type 0
IsHeard overflow = ⊥
IsHeard nothing = Unit {0}
IsHeard (chunk bytes) = length bytes ≤ 64

abbrev pub bytes_of : List Received → Bytes
bytes_of [] = []
bytes_of (overflow ∷ rs) = bytes_of rs
bytes_of (nothing ∷ rs) = bytes_of rs
bytes_of (chunk bytes ∷ rs) = bytes ++ bytes_of rs

-- Nobody presses Back.
abbrev pub running : List Received → List (Bool × Received)
running [] = []
running (r ∷ rs) = (true, r) ∷ running rs

-- A frame that leaves room for a chunk in the gathered bytes.
abbrev pub limit : ℕ
limit = max_frame - 64

All_frames : (gs : List Frame) → All (Fit limit) gs → All IsFrame gs
All_frames [] h = tt
All_frames (g ∷ gs) (h, hs) = (h.0, All_frames gs hs)

regroup :
    (gs done left done2 left2 : List Frame)
    → gs ≡ done ++ left
    → left ≡ done2 ++ left2
    → gs ≡ (done ++ done2) ++ left2
regroup gs done left done2 left2 e k =
    e ∙ ap (λ l. done ++ l) k ∙ sym (append_assoc done done2 left2)

module _ {W : Type 0} (device : Instruments W) (from_payload : Bytes → Option Req) (P : W → Type 0)
    (Q : Frame → Type 0) (quiet : (w : W) → P w → device.drain_captures w ≡ (w, []))
    (keeps : (f : Frame) (w : W) → Q f → P w → P (handle device from_payload f w).0) where
  handle_all-keeps :
      (fs : List Frame) (w : W) → All Q fs → P w → P (handle_all device from_payload fs w).0
  unfolding handle_all
  handle_all-keeps [] w h p = p
  handle_all-keeps (f ∷ fs) w (q, h) p =
      handle_all-keeps fs (handle device from_payload f w).0 h (keeps f w q p)

  handle_all-append :
      (fs gs : List Frame) (w : W)
      → handle_all device from_payload (fs ++ gs) w ≡ (
        (handle_all device from_payload gs (handle_all device from_payload fs w).0).0,
        (handle_all device from_payload fs w).1
            ++ (handle_all device from_payload gs (handle_all device from_payload fs w).0).1,
      )
  unfolding handle_all
  handle_all-append [] gs w = refl
  handle_all-append (f ∷ fs) gs w =
      let one = handle device from_payload f w in
      let more = handle_all device from_payload fs one.0 in
      let last = handle_all device from_payload gs more.0 in
      rw (handle_all-append fs gs one.0)
        (ap (λ (l : List Reply). (last.0, l)) (sym (append_assoc one.1 more.1 last.1)))

  round_quiet :
      (acc bytes part : Bytes) (idle : ℕ) (w : W) (done : List Frame)
      → P w
      → length (acc ++ bytes) ≤ max_frame
      → drain (reader (acc ++ bytes)) ≡ (done, reader part)
      → round device from_payload (chunk bytes) (record { acc = acc; idle = idle; world = w }) ≡ (
        record { acc = part; idle = 0; world = (handle_all device from_payload done w).0 },
        (handle_all device from_payload done w).1,
      )
  unfolding round
  round_quiet acc bytes part idle w done p fits e =
      rw (quiet w p, gather_lem device from_payload (acc ++ bytes) w fits, e) refl

  round-nothing :
      (acc : Bytes) (idle : ℕ) (w : W)
      → P w
      → round device from_payload nothing (record { acc = acc; idle = idle; world = w }) ≡ (
        record { acc = acc; idle = if device.capturing w then idle else idle + 1; world = w },
        [],
      )
  unfolding round
  round-nothing acc idle w p = rw (quiet w p) refl

  -- What the loop has done with the frames at the end of the rounds.
  Done : List Received → State W → List Frame → Bytes → Type 0
  Done rs s gs post =
      (done : List Frame) × (left : List Frame) × (part : Bytes) × (idle : ℕ) × (main_loop device
          from_payload (running rs) s
        ≡ (
          record {
            acc = part;
            idle = idle;
            world = (handle_all device from_payload done s.world).0;
          },
          (handle_all device from_payload done s.world).1,
        ))
      × (gs ≡ done ++ left)
      × (part ++ post ≡ wires left)
      × (drain (reader part) ≡ ([], reader part))

  main_loop_lem :
      (rs : List Received) (acc : Bytes) (idle : ℕ) (w : W) (gs : List Frame) (post : Bytes)
      → All IsHeard rs
      → idle + length rs ≤ max_idle
      → P w
      → All Q gs
      → All (Fit limit) gs
      → length acc ≤ limit
      → drain (reader acc) ≡ ([], reader acc)
      → acc ++ (bytes_of rs ++ post) ≡ wires gs
      → Done rs (record { acc = acc; idle = idle; world = w }) gs post
  unfolding main_loop Done
  main_loop_lem [] acc idle w gs post heard few p q fit short whole e =
      ([], gs, acc, idle, unfold handle_all in refl, refl, e, whole)
  main_loop_lem (overflow ∷ rs) acc idle w gs post heard few p q fit short whole e = absurd heard.0
  main_loop_lem (nothing ∷ rs) acc idle w gs post heard few p q fit short whole e =
      let idle' = if device.capturing w then idle else idle + 1 in
      let bound : idle' ≤ idle + 1 =
        if-either (λ n. n ≤ idle + 1) (device.capturing w) idle (idle + 1) (omega arith)
          (omega arith) in
      let goes_on : ltb idle max_idle ≡ true = ground arith in
      let (done, left, part, idle2, same, all, behind, rest) =
        main_loop_lem rs acc idle' w gs post heard.1 (omega arith) p q fit short whole e in
      (done, left, part, idle2, rw (goes_on, round-nothing acc idle w p) same, all, behind, rest)
  main_loop_lem (chunk bytes ∷ rs) acc idle w gs post heard few p q fit short whole e =
      let goes_on : ltb idle max_idle ≡ true = ground arith in
      let (done, left, part, read, all, behind, small) =
        drain_front limit gs (acc ++ bytes) (bytes_of rs ++ post) fit (
          append_assoc acc bytes (bytes_of rs ++ post)
          ∙ ap (λ l. acc ++ l) (sym (append_assoc bytes (bytes_of rs) post))
          ∙ e) in
      let kept =
        subst (λ r. drain r.1 ≡ ([], r.1)) read
          (drain_again (suc (length (acc ++ bytes))) (acc ++ bytes) (omega arith)) in
      let now =
        round_quiet acc bytes part idle w done p (omega (arith, length-append acc bytes, heard.0))
          read in
      let qs = subst (All Q) all q in
      let fits = subst (All (Fit limit)) all fit in
      let w' = (handle_all device from_payload done w).0 in
      let (done2, left2, part2, idle2, same, more, after, rest) =
        main_loop_lem rs part 0 w' left post heard.1 (omega arith)
          (handle_all-keeps done w (All-append_left Q done left qs) p)
          (All-append_right Q done left qs) (All-append_right (Fit limit) done left fits) small kept
          behind in
      (
        done ++ done2,
        left2,
        part2,
        idle2,
        rw (goes_on, now, same, handle_all-append done done2 w) refl,
        regroup gs done left done2 left2 all more,
        after,
        rest,
      )

  -- A stream of whole frames, to its end.
  pub served_lem :
      (rs : List Received) (gs : List Frame) (w : W)
      → All IsHeard rs
      → length rs ≤ max_idle
      → P w
      → All Q gs
      → All (Fit limit) gs
      → bytes_of rs ≡ wires gs
      → (idle : ℕ) × (main_loop device from_payload
            (running rs)
            (record { acc = []; idle = 0; world = w })
          ≡ (
            record { acc = []; idle = idle; world = (handle_all device from_payload gs w).0 },
            (handle_all device from_payload gs w).1,
          ))
  unfolding Done
  served_lem rs gs w heard few p q fit e =
      let nothing_read = drain-wires [] [] tt decode-nil in
      let (done, left, part, idle, same, all, behind, whole) =
        main_loop_lem rs [] 0 w gs [] heard (omega arith) p q fit (omega arith) nothing_read
          (append-nil (bytes_of rs) ∙ e) in
      let fits = All-append_right (Fit limit) done left (subst (All (Fit limit)) all fit) in
      let read = drain-wires left [] (All_frames left fits) decode-nil in
      let same_part : part ++ [] ≡ wires left ++ [] = behind ∙ sym (append-nil (wires left)) in
      let both =
        sym whole ∙ ap (λ l. drain (reader l)) (sym (append-nil part) ∙ same_part) ∙ read in
      let none_left : [] ≡ left = ap (λ r. r.0) both in
      let no_part : part ≡ [] = ap (λ r. r.1.buf) both in
      let finished : gs ≡ done = all ∙ ap (λ l. done ++ l) (sym none_left) ∙ append-nil done in
      (
        idle,
        rw (same, no_part)
            (ap
              (λ (l : List Frame). (
                record { acc = []; idle = idle; world = (handle_all device from_payload l w).0 },
                (handle_all device from_payload l w).1,
              ))
              (sym finished)),
      )
