-- ===== src/Ws/Parse/Invariant.antt =====
-- The well-formedness of a session, and that every parse function keeps it.
use libyimmo.Base.{
  ℕ, ◌+◌, ◌-◌, ◌*◌, ◌%◌, ◌^◌, ◌≤◌, ◌<◌, ◌≡◌, ◌≢◌, inl, inr, refl, max, bit_and, none, some, List,
  [], ◌∷◌, length, leb, ltb, ◌==◌, Bool-cases, Option-cases, Status, okay, IsByte, arith,
}
use libyimmo.Base.Bits.{bytes_agree}
use mathlib.Core.Path.{subst, sym}
use libyimmo.Ws.Session.{
  Platform, IsSized, ParseState, op, len, len_extended, masking_key, payload, complete, Frame,
  Session, new_buffer, alloc_frame, frame_min,
}
use libyimmo.Ws.Header.{
  Parsed, consumed, failed, allocated, parse_op, parse_len, start_key, ext_loop, ext_done,
  parse_len_ext,
}
use libyimmo.Ws.Parse.{block_of}

-- What each parse state knows of the frame.
abbrev pub Shape : ParseState → Frame → Type 0
Shape op f = (f.len ≡ 0) × (f.parsed ≡ 0) × (f.idx ≡ 0)
Shape len f = (f.len ≡ 0) × (f.parsed ≡ 0) × (f.idx ≡ 0)
Shape len_extended f =
    (f.len < 2 ^ 64) × (f.parsed ≡ 0) × (1 ≤ f.idx) × (f.idx ≤ 8) × (f.masked ≢ 0)
Shape masking_key f =
    (f.len < 2 ^ 64) × (f.parsed ≡ 0) × (f.idx ≤ 3) × (f.masked ≢ 0) × (f.len ≤ f.buf_len)
Shape payload f = (f.len < 2 ^ 64) × (f.parsed < f.len) × (f.len ≤ f.buf_len)
Shape complete f = f.len ≤ f.buf_len

pub record IsValid (f : Frame) : Type 0 where
  pub block_fits : f.buf_len ≤ length (block_of f)
  pub key_fits : length f.masking_key ≡ 4
  pub shape : Shape f.parse_state f

-- What `ymo_ws_session_alloc_frame` does to a frame when it succeeds.
record Grown (n : ℕ) (f f' : Frame) : Type 0 where
  fits : n ≤ f'.buf_len
  block : f'.buf_len ≤ length (block_of f')
  same : f' ≡ record f { buffer = f'.buffer; buf_len = f'.buf_len }

new_buffer-Grown :
    (p : Platform) (f f' : Frame) (n : ℕ) → IsSized p → new_buffer p f n ≡ (okay, f') → Grown n f f'
unfolding new_buffer
new_buffer-Grown p f f' n sized e = elim (Option-cases (p.alloc (max frame_min n))) [
  | inl no_memory ↦ absurd (ground (arith, no_memory))
  | inr (block, got) ↦
      let is : record f { buffer = some block; buf_len = max frame_min n } ≡ f' =
        ground (arith, got) in
      subst (Grown n f) is
        (record { fits = omega arith; block = omega (arith, sized _ block got); same = refl })
]

alloc_frame-Grown :
    (p : Platform) (f f' : Frame) (n : ℕ)
    → IsSized p
    → f.buf_len ≤ length (block_of f)
    → alloc_frame p f n ≡ (okay, f')
    → Grown n f f'
unfolding alloc_frame
alloc_frame-Grown p f f' n sized h e = elim (Bool-cases (ltb p.frame_max n)) [
  | inl large ↦ absurd (ground (arith, large))
  | inr small ↦ elim (Option-cases f.buffer) [
    | inl null ↦ new_buffer-Grown p f f' n sized (ground (arith, small, null))
    | inr (block, got) ↦ elim (Bool-cases (leb n f.buf_len)) [
      | inl enough ↦
          subst (Grown n f) {x = f} (ground (arith, small, got, enough))
            (record { fits = ground arith; block = h; same = refl })
      | inr short ↦
          let cleared = record f { buffer = none; buf_len = 0 } in
          let grown : Grown n cleared f' =
            new_buffer-Grown p cleared f' n sized (ground (arith, small, got, short)) in
          record { fits = grown.fits; block = grown.block; same = grown.same }
    ]
  ]
]

-- A parse function that goes on takes some of the bytes and leaves a valid frame.
abbrev pub Keeps : ℕ → Parsed → Type 0
Keeps room (consumed n s) = (1 ≤ n) × (n ≤ room) × IsValid s.frame_in
Keeps room (failed e s) = Unit

pub parse_op-Keeps :
    (s : Session) (b room : ℕ)
    → 1 ≤ room
    → s.frame_in.parse_state ≡ op
    → IsValid s.frame_in
    → Keeps room (parse_op s b)
unfolding parse_op
parse_op-Keeps s b room h st v = ground arith

-- A frame whose payload has room in the grown buffer, ready for its key.
Grown-IsValid :
    (n : ℕ) (f f' : Frame)
    → Grown n f f'
    → length f.masking_key ≡ 4
    → f.len ≡ n
    → n < 2 ^ 64
    → f.parsed ≡ 0
    → f.idx ≤ 3
    → f.masked ≢ 0
    → IsValid (record f' { parse_state = masking_key })
Grown-IsValid n f f' g key en small ep ei em =
    subst (λ h. IsValid (record h { parse_state = masking_key })) (sym g.same)
      (record {
        block_fits = g.block;
        key_fits = key;
        shape = (omega arith, omega arith, omega arith, em, omega (arith, g.fits));
      })

pub low_seven : (ch : ℕ) → IsByte ch → bit_and ch 0x7F ≡ ch % 128
low_seven ch h = bytes_agree (λ x. bit_and x 0x7F) (λ x. x % 128) 256 ch h refl

allocated-Keeps :
    (s : Session) (n room : ℕ) (f : Frame) (r : Status × Frame)
    → 1 ≤ n
    → n ≤ room
    → ((f' : Frame) → r ≡ (okay, f') → IsValid f')
    → Keeps room (allocated s n r)
unfolding allocated
allocated-Keeps s n room f (okay, f') h k v = (h, k, v f' refl)
allocated-Keeps s n room f (e, f') h k v = tt

pub parse_len-Keeps :
    (p : Platform) (s : Session) (ch room : ℕ)
    → IsSized p
    → IsByte ch
    → 1 ≤ room
    → s.frame_in.parse_state ≡ len
    → IsValid s.frame_in
    → Keeps room (parse_len p s ch)
unfolding parse_len
parse_len-Keeps p s ch room sized hb h st v = elim (Bool-cases (bit_and ch 0x80 == 0)) [
  | inl unmasked ↦ rw unmasked tt
  | inr masked ↦ elim (Bool-cases (leb (bit_and ch 0x7F) 125)) [
    | inr long ↦ ground (arith, masked, long)
    | inl short ↦
        rw (masked, short)
          (allocated-Keeps s 1 room f (alloc_frame p f n) (omega arith) h (λ f' e.
            let g = alloc_frame-Grown p f f' n sized v.block_fits e in
            subst IsValid {x = record f' { parse_state = masking_key }} (cc g.same) (
              Grown-IsValid n f f' g v.key_fits refl (omega (arith, low_seven ch hb)) (ground arith)
                (ground arith) (ground (arith, masked)))))
  ]
]
  where
    n : ℕ
    n = bit_and ch 0x7F

    f : Frame
    f = record s.frame_in { masked = bit_and ch 0x80; len = n; parse_state = masking_key }

-- The loop over the extended length changes `len` and `len_idx` only.
record Counted (f : Frame) (n : ℕ) (bs : List ℕ) (r : ℕ × Frame) : Type 0 where
  advances : n ≤ r.0
  within : r.0 ≤ n + length bs
  starts : 1 ≤ f.idx → 1 ≤ length bs → n + 1 ≤ r.0
  fits : f.len < 2 ^ 64 → r.1.len < 2 ^ 64
  counts : r.1.idx ≤ f.idx
  same : r.1 ≡ record f { len = r.1.len; idx = r.1.idx }

ext_loop-Counted : (f : Frame) (n : ℕ) (bs : List ℕ) → Counted f n bs (ext_loop f n bs)
unfolding ext_loop
ext_loop-Counted f n [] = record {
  advances = omega arith;
  within = omega arith;
  starts = λ h k. absurd (omega arith);
  fits = λ h. h;
  counts = omega arith;
  same = refl;
}
ext_loop-Counted f n (b ∷ bs) = elim (Bool-cases (f.idx == 0)) [
  | inl done ↦ rw done (record {
    advances = omega arith;
    within = omega arith;
    starts = λ h k. absurd (ground (arith, done));
    fits = λ h. h;
    counts = omega arith;
    same = refl;
  })
  | inr more ↦
      let f1 = record f {
        len = (f.len + b * 2 ^ (8 * (f.idx - 1)) % 2 ^ 64) % 2 ^ 64;
        idx = f.idx - 1;
      } in
      let r = ext_loop-Counted f1 (n + 1) bs in
      rw more (record {
        advances = omega (arith, r.advances);
        within = omega (arith, r.within);
        starts = λ h k. r.advances;
        fits = λ h. r.fits (omega arith);
        counts = omega (arith, r.counts);
        same = r.same;
      })
]

start_key-okay :
    (r : Status × Frame) (f : Frame)
    → start_key r ≡ (okay, f)
    → (f' : Frame) × (r ≡ (okay, f')) × (record f' { parse_state = masking_key } ≡ f)
start_key-okay (okay, f') f e = (f', refl, cc)
start_key-okay (e, f') f h = absurd (cc)

ext_done-Keeps :
    (p : Platform) (s : Session) (n room : ℕ) (f : Frame)
    → IsSized p
    → 1 ≤ n
    → n ≤ room
    → f.buf_len ≤ length (block_of f)
    → length f.masking_key ≡ 4
    → f.parse_state ≡ len_extended
    → (f.len < 2 ^ 64) × (f.parsed ≡ 0) × (f.idx ≤ 8) × (f.masked ≢ 0)
    → Keeps room (ext_done p s (n, f))
unfolding ext_done
ext_done-Keeps p s n room f sized h k block key st (small, ep, ei, em) =
    elim (Bool-cases (f.idx == 0)) [
      | inr more ↦ rw more (
        h,
        k,
        record {
          block_fits = block;
          key_fits = key;
          shape = subst (λ t. Shape t f) (sym st) (small, ep, ground arith, ei, em);
        },
      )
      | inl done ↦ elim (Bool-cases (bit_and f.len 0x8000000000000000 == 0)) [
        | inr high ↦ rw (done, high) tt
        | inl clear ↦
            rw (done, clear)
              (allocated-Keeps s n room f (start_key (alloc_frame p f f.len)) h k (λ f' e.
                let (g, got, is) = start_key-okay (alloc_frame p f f.len) f' e in
                subst IsValid is (
                  Grown-IsValid f.len f g (alloc_frame-Grown p f g f.len sized block got) key refl
                    small ep (ground arith) em)))
      ]
    ]

pub parse_len_ext-Keeps :
    (p : Platform) (s : Session) (b : ℕ) (bs : List ℕ)
    → IsSized p
    → s.frame_in.parse_state ≡ len_extended
    → IsValid s.frame_in
    → Keeps (length (b ∷ bs)) (parse_len_ext p s (b ∷ bs))
unfolding parse_len_ext
parse_len_ext-Keeps p s b bs sized st v =
    let r = ext_loop s.frame_in 0 (b ∷ bs) in
    let c = ext_loop-Counted s.frame_in 0 (b ∷ bs) in
    let shape : Shape len_extended s.frame_in = subst (λ t. Shape t s.frame_in) st v.shape in
    ext_done-Keeps p s r.0 (length (b ∷ bs)) r.1 sized
      (omega (arith, c.starts (shape.2) (omega arith))) (omega (arith, c.within))
      (subst (λ f. f.buf_len ≤ length (block_of f)) (sym c.same) v.block_fits)
      (subst (λ f. length f.masking_key ≡ 4) (sym c.same) v.key_fits)
      (subst (λ f. f.parse_state ≡ len_extended) (sym c.same) st)
      (
        c.fits shape.0,
        subst (λ f. f.parsed ≡ 0) (sym c.same) shape.1,
        omega (arith, c.counts, shape.3),
        subst (λ f. f.masked ≢ 0) (sym c.same) shape.4,
      )
