-- ===== src/Revtunnel/Consuming.antt =====
-- internal/revtunnel/stream.go: what the reading loop makes of any bytes, until it ends.
use sase.Prelude.{
  ℕ, zero, suc, ◌+◌, ◌*◌, ◌%◌, ◌^◌, ◌≤◌, ◌<◌, ◌≡◌, refl, arith, ◌⊎◌, true, false, Bool-cases, inl,
  inr, List, [], ◌∷◌, ◌++◌, some, length, take, drop, All, length-take, length-drop, get_or, ltb,
  take-append-drop,
}
use mathlib.Core.List.{append_assoc}
use sase.Prelude.Bytes.{Bytes, AreBytes}
use sase.Dptunnel.Frame.{put_uint16, put_uint32, uint16_at, uint32_at}
use sase.Revtunnel.Wire.{Frame, short, oversize, frame, header, next_frame, mux_closed}
use sase.Revtunnel.Mux.{MuxConn, LoopEnd, ended, waiting, dispatch, on_next, read_loop, close_all}
use sase.Revtunnel.Codec.{IsFrame, encode, encode_all, dispatch_all, next_frame-shorter}

-- The length of its payload that the header of a frame declares, big-endian after five bytes.
unfoldable pub declared : Bytes → ℕ
declared b = get_or b 5 0 * 2 ^ 24 + get_or b 6 0 * 2 ^ 16 + get_or b 7 0 * 2 ^ 8 + get_or b 8 0

-- No frame can be read: the header or the payload is not complete, or the payload is too long.
abbrev pub NoFrame : Bytes → Type 0
NoFrame b = (length b < 9) ⊎ ((65536 < declared b) ⊎ (length b < 9 + declared b))

uint32_at-declared : (b : Bytes) → uint32_at b 5 ≡ declared b
unfolding declared uint32_at uint16_at
uint32_at-declared b = omega arith

word_bytes :
    (a b c d : ℕ)
    → a < 256
    → b < 256
    → c < 256
    → d < 256
    → put_uint32 ((a * 2 ^ 8 + b) * 2 ^ 16 + (c * 2 ^ 8 + d)) ≡ a ∷ b ∷ c ∷ d ∷ []
unfolding put_uint32 put_uint16
word_bytes a b c d ha hb hc hd = ground arith

drop-AreBytes : (n : ℕ) (b : Bytes) → AreBytes b → AreBytes (drop n b)
drop-AreBytes zero b h = h
drop-AreBytes (suc n) [] h = tt
drop-AreBytes (suc n) (x ∷ b) h = drop-AreBytes n b h.1

nine_ranges :
    (a b c d e f g h i : ℕ) (t : Bytes)
    → AreBytes (a ∷ b ∷ c ∷ d ∷ e ∷ f ∷ g ∷ h ∷ i ∷ t)
    → (a < 256)
      × (b < 256)
      × (c < 256)
      × (d < 256)
      × (e < 256)
      × (f < 256)
      × (g < 256)
      × (h < 256)
      × (i < 256)
      × AreBytes t
nine_ranges a b c d e f g h i t p =
    let q = p.1.1.1.1 in
    (p.0, p.1.0, p.1.1.0, p.1.1.1.0, q.0, q.1.0, q.1.1.0, q.1.1.1.0, q.1.1.1.1.0, q.1.1.1.1.1)

-- Encoding what was read off nine bytes gives them back.
header_back :
    (x : Bytes)
    → AreBytes x
    → 9 ≤ length x
    → header (get_or x 0 0) (uint32_at x 1) (uint32_at x 5) ≡ take 9 x
unfolding header uint32_at uint16_at
header_back [] p n = absurd (omega arith)
header_back (a ∷ []) p n = absurd (omega arith)
header_back (a ∷ b ∷ []) p n = absurd (omega arith)
header_back (a ∷ b ∷ c ∷ []) p n = absurd (omega arith)
header_back (a ∷ b ∷ c ∷ d ∷ []) p n = absurd (omega arith)
header_back (a ∷ b ∷ c ∷ d ∷ e ∷ []) p n = absurd (omega arith)
header_back (a ∷ b ∷ c ∷ d ∷ e ∷ f ∷ []) p n = absurd (omega arith)
header_back (a ∷ b ∷ c ∷ d ∷ e ∷ f ∷ g ∷ []) p n = absurd (omega arith)
header_back (a ∷ b ∷ c ∷ d ∷ e ∷ f ∷ g ∷ h ∷ []) p n = absurd (omega arith)
header_back (a ∷ b ∷ c ∷ d ∷ e ∷ f ∷ g ∷ h ∷ i ∷ t) p n =
    let (_, pb, pc, pd, pe, pf, pg, ph, pi, _) = nine_ranges a b c d e f g h i t p in
    let small : ((f * 2 ^ 8 + g) * 2 ^ 16 + (h * 2 ^ 8 + i)) % 2 ^ 32
        ≡ (f * 2 ^ 8 + g) * 2 ^ 16 + (h * 2 ^ 8 + i) =
      omega arith in
    rw (small, word_bytes b c d e pb pc pd pe, word_bytes f g h i pf pg ph pi) refl

id_small : (x : Bytes) → AreBytes x → 9 ≤ length x → uint32_at x 1 < 2 ^ 32
unfolding uint32_at uint16_at
id_small [] p n = absurd (omega arith)
id_small (a ∷ []) p n = absurd (omega arith)
id_small (a ∷ b ∷ []) p n = absurd (omega arith)
id_small (a ∷ b ∷ c ∷ []) p n = absurd (omega arith)
id_small (a ∷ b ∷ c ∷ d ∷ []) p n = absurd (omega arith)
id_small (a ∷ b ∷ c ∷ d ∷ e ∷ []) p n = absurd (omega arith)
id_small (a ∷ b ∷ c ∷ d ∷ e ∷ f ∷ []) p n = absurd (omega arith)
id_small (a ∷ b ∷ c ∷ d ∷ e ∷ f ∷ g ∷ []) p n = absurd (omega arith)
id_small (a ∷ b ∷ c ∷ d ∷ e ∷ f ∷ g ∷ h ∷ []) p n = absurd (omega arith)
id_small (a ∷ b ∷ c ∷ d ∷ e ∷ f ∷ g ∷ h ∷ i ∷ t) p n =
    let (_, pb, pc, pd, pe, _, _, _, _, _) = nine_ranges a b c d e f g h i t p in omega arith

-- What next_frame finds at the head of bytes: nothing that can be read, or a frame, encoded as it is
-- written, and the rest.
data Head (b : Bytes) : Type 0 where
  stops : NoFrame b → ((next_frame b ≡ short) ⊎ (next_frame b ≡ oversize)) → Head b
  starts :
      (f : Frame) (rest : Bytes)
      → next_frame b ≡ frame f rest
      → b ≡ encode f ++ rest
      → IsFrame f
      → AreBytes rest
      → Head b

Head-cases : (b : Bytes) → AreBytes b → Head b
unfolding next_frame encode
Head-cases b p = elim (Bool-cases (ltb (length b) 9)) [
  | inl s ↦ stops (inl (ground arith)) (inl (rw s refl))
  | inr s ↦ elim (Bool-cases (ltb 65536 (uint32_at b 5))) [
    | inl o ↦ stops (inr (inl (ground (arith, uint32_at-declared b)))) (inr (rw (s, o) refl))
    | inr o ↦ elim (Bool-cases (ltb (length b) (9 + uint32_at b 5))) [
      | inl m ↦ stops (inr (inr (ground (arith, uint32_at-declared b)))) (inl (rw (s, o, m) refl))
      | inr m ↦
          let ln = uint32_at b 5 in
          let all : 9 ≤ length b = ground arith in
          let body : length (take ln (drop 9 b)) ≡ ln =
            ground (arith, length-take ln (drop 9 b), length-drop 9 b) in
          let payload = take-append-drop ln (drop 9 b) in
          let whole = take-append-drop 9 b in
          starts (record { typ = get_or b 0 0; id = uint32_at b 1; payload = take ln (drop 9 b) })
            (drop ln (drop 9 b)) (rw (s, o, m) refl)
            (rw
              (
                body,
                header_back b p all,
                append_assoc (take 9 b) (take ln (drop 9 b)) (drop ln (drop 9 b)),
                payload,
                whole,
              )
              refl)
            (record { id_range = id_small b p all; payload_range = rw body (ground arith) })
            (drop-AreBytes ln (drop 9 b) (drop-AreBytes 9 b p))
    ]
  ]
]

-- The bytes begin with frames that were dispatched one after the other, and go on with the rest.
abbrev pub Consumed : Bytes → MuxConn → Bytes → MuxConn → Type 0
Consumed b m rest t =
    (fs : List Frame) × (b ≡ encode_all fs ++ rest) × All IsFrame fs × (dispatch_all fs m ≡ some t)

-- The loop stopped at the rest with every stream closed, since no frame can be read there, or waits
-- with the frame there, whose stream has no room.
abbrev pub StoppedAt : Bytes → MuxConn → LoopEnd × MuxConn → Type 0
StoppedAt rest t result =
    (NoFrame rest × (result ≡ (ended, close_all mux_closed t)))
    ⊎ ((f : Frame) × (tail : Bytes) × (rest ≡ encode f ++ tail)
        × IsFrame f
        × ((dispatch f t).0 ≡ true)
        × (result ≡ (waiting rest, t)))

Consumed-none : (b : Bytes) (m : MuxConn) → Consumed b m b m
unfolding encode_all dispatch_all
Consumed-none b m = ([], refl, tt, refl)

Consumed-one :
    (f : Frame) (b rest : Bytes) (m t : MuxConn)
    → IsFrame f
    → (dispatch f m).0 ≡ false
    → Consumed b (dispatch f m).1 rest t
    → Consumed (encode f ++ b) m rest t
unfolding encode_all dispatch_all
Consumed-one f b rest m t fits w (fs, e, all, d) =
    (f ∷ fs, rw (append_assoc (encode f) (encode_all fs) rest, e) refl, (fits, all), rw w d)

-- Whatever bytes come until the connection breaks, with more rounds than there are bytes the loop is
-- done: it dispatches in order the frames that they begin with, and then closes every stream where no
-- frame can be read, because one is incomplete or declares more than 65536 bytes, or waits where a
-- frame's stream has no room.
pub read_loop-consumes :
    (fuel : ℕ) (b : Bytes) (m : MuxConn)
    → AreBytes b
    → length b < fuel
    → (rest : Bytes) × (t : MuxConn) × Consumed b m rest t × StoppedAt rest t (read_loop fuel b m)
unfolding read_loop on_next
read_loop-consumes zero b m p h = absurd (omega arith)
read_loop-consumes (suc fuel) b m p h = elim (Head-cases b p) [
  | stops unread (inl e) ↦ (b, m, Consumed-none b m, inl (unread, rw e refl))
  | stops unread (inr e) ↦ (b, m, Consumed-none b m, inl (unread, rw e refl))
  | starts f rest e form fits q ↦ elim (Bool-cases (dispatch f m).0) [
    | inl w ↦ (b, m, Consumed-none b m, inr (f, rest, form, fits, w, rw (e, w) refl))
    | inr w ↦
        let less = next_frame-shorter b f rest e in
        let (left, t, consumed, stopped) =
          read_loop-consumes fuel rest (dispatch f m).1 q (omega (arith, less, h)) in
        (left, t, rw form (Consumed-one f rest left m t fits w consumed), rw (e, w) stopped)
  ]
]
