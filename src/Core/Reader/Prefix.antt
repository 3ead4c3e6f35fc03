-- ===== src/Core/Reader/Prefix.antt =====
-- The reading loop over crates/flip-core/src/transport.rs on a front of the encodings of frames.
use flip_link.Base.{
  ℕ, ◌≤◌, ◌≡◌, refl, ap, ◌∙◌, arith, ◌⊎◌, inl, inr, List, [], ◌∷◌, ◌++◌, length, length-append, All,
}
use flip_link.Proto.Bytes.{Bytes}
use flip_link.Proto.Frame.{Frame}
use flip_link.Proto.Frame.Stream.{decode-nil, decode_prefix}
use flip_link.Proto.Frame.Wire.{wire, IsFrame, length-wire, frame_size}
use flip_link.Core.Reader.{drain}
use flip_link.Core.Reader.Stream.{scan_need_more, scan_garbage}
use flip_link.Core.Reader.Chunks.{reader, also, drain_idle, drain_found, wires}

-- Two cuts of one list: the first is behind the second, or inside.
split :
    {A : Type 0} (xs ys zs ws : List A)
    → xs ++ ys ≡ zs ++ ws
    → ((m : List A) × (xs ≡ zs ++ m) × (m ++ ys ≡ ws))
      ⊎ ((x : A) × (m : List A) × (zs ≡ xs ++ (x ∷ m)))
split xs ys [] ws e = inl (xs, refl, e)
split [] ys (z ∷ zs) ws e = inr (z, zs, refl)
split (x ∷ xs) ys (z ∷ zs) ws e =
    let head : x ≡ z = cc in
    let tail : xs ++ ys ≡ zs ++ ws = cc in
    elim (split xs ys zs ws tail) [
      | inl (m, a, b) ↦ inl (m, cc, b)
      | inr (y, m, a) ↦ inr (y, m, cc)
    ]

abbrev pub Fit : ℕ → Frame → Type 0
Fit limit f = IsFrame f × (frame_size f ≤ limit)

-- What the reader makes of a front of these frames' encodings: the first frames, and a part that is
-- shorter than one frame.
pub drain_front :
    (limit : ℕ) (gs : List Frame) (pre post : Bytes)
    → All (Fit limit) gs
    → pre ++ post ≡ wires gs
    → (done : List Frame) × (left : List Frame) × (part : Bytes) × (drain (reader pre)
        ≡ (done, reader part))
      × (gs ≡ done ++ left)
      × (part ++ post ≡ wires left)
      × (length part ≤ limit)
drain_front limit [] [] post h e =
    ([], [], [], drain_idle [] [] (scan_need_more [] decode-nil), refl, e, omega arith)
drain_front limit [] (x ∷ pre) post h e = absurd cc
drain_front limit (g ∷ gs) pre post ((ok, fits), h) e =
    elim (split pre post (wire 1 g) (wires gs) e) [
      | inl (m, a, b) ↦
          let (done, left, part, read, all, behind, short) = drain_front limit gs m post h b in
          (
            g ∷ done,
            left,
            part,
            ap (λ l. drain (reader l)) a
                ∙ drain_found (wire 1 g ++ m) m g (scan_garbage [] 1 g m tt ok)
                ∙ ap (also (g ∷ [])) read,
            ap (λ l. g ∷ l) all,
            behind,
            short,
          )
      | inr (x, m, a) ↦ (
        [],
        g ∷ gs,
        pre,
        drain_idle pre pre (scan_need_more pre (decode_prefix 1 g pre x m ok a)),
        refl,
        e,
        omega (arith, ap length a, length-append pre (x ∷ m), length-wire 1 g),
      )
    ]
