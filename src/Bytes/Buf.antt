-- ===== src/Bytes/Buf.antt =====
-- k_buf of code/kbase.h: a buffer that grows, and that keeps the first error.
use kynovo.Common.{
  leb→le, ◌⊎◌, ℕ, zero, suc, ◌+◌, ◌-◌, ◌*◌, ◌%◌, ◌^◌, ◌<◌, ◌≤◌, ◌≡◌, List, [], ◌++◌, Bool, true,
  false, ltb, leb, ◌==◌, if◌then◌else◌, arith, length, length-append, refl, sym, ap, ◌∙◌,
  append_assoc, Bool-cases, inl, inr, u32_mod,
}
use kynovo.Common.Memory.{allocate, Rc, ok, fail}
use kynovo.Bytes.Word.{Bytes, write_u8, write_u16, write_u32, write_u64}

pub record Buf : Type 0 where
  pub bytes : Bytes
  pub cap : ℕ
  pub err : Bool
  pub memory : List Bool

abbrev pub len : Buf → ℕ
len b = length b.bytes

-- A zeroed buffer.
abbrev pub empty_buf : List Bool → Buf
empty_buf memory = record { bytes = []; cap = 0; err = false; memory = memory }

-- The doubling of the capacity; 32 rounds reach the last word from any capacity but 0.
unfoldable pub grow : ℕ → ℕ → ℕ → ℕ
grow zero need cap = cap
grow (suc fuel) need cap =
    let rest = grow fuel need ((cap * 2) % u32_mod) in
    if ltb cap need then (if ltb 0x7fffffff cap then need else rest) else cap

abbrev pub set_err : Buf → Buf
set_err b = record b { err = true }

unfoldable pub reserve : ℕ → Buf → Rc × Buf
reserve add b =
    let need = len b + add in
    let (got, memory) = allocate b.memory in
    if b.err
    then (fail, b)
    else if ltb (0xffffffff - len b) add
    then (fail, set_err b)
    else if leb need b.cap
    then (ok, b)
    else if got
    then (ok, record b { cap = grow 32 need (if b.cap == 0 then 128 else b.cap); memory = memory })
    else (fail, record b { err = true; memory = memory })

unfoldable pub written : Bytes → Rc × Buf → Buf
written bs (ok, b) = record b { bytes = b.bytes ++ bs }
written bs (fail, b) = b

-- `k_buf_bytes`, and the words, which differ in what they write only.
unfoldable pub put : Bytes → Buf → Buf
put bs b = written bs (reserve (length bs) b)

abbrev pub buf_u8 : ℕ → Buf → Buf
buf_u8 v b = put (write_u8 v) b

abbrev pub buf_u16 : ℕ → Buf → Buf
buf_u16 v b = put (write_u16 v) b

abbrev pub buf_u32 : ℕ → Buf → Buf
buf_u32 v b = put (write_u32 v) b

abbrev pub buf_u64 : ℕ → Buf → Buf
buf_u64 v b = put (write_u64 v) b

-- The bytes fit the capacity, and the capacity fits a word.
pub record IsBuf (b : Buf) : Type 0 where
  pub fits : len b ≤ b.cap
  pub word : b.cap < 2 ^ 32

pow_suc : (n : ℕ) → 2 ^ suc n ≡ 2 * 2 ^ n
pow_suc n = omega arith

grow_lem :
    (fuel need cap : ℕ)
    → need < 2 ^ 32
    → 0 < cap
    → cap < 2 ^ 32
    → need ≤ cap * 2 ^ fuel
    → (need ≤ grow fuel need cap) × (grow fuel need cap < 2 ^ 32)
unfolding grow
grow_lem zero need cap hn pos word enough = omega arith
grow_lem (suc fuel) need cap hn pos word enough = elim (Bool-cases (ltb cap need)) [
  | inr large ↦ rw large (ground arith)
  | inl small ↦ elim (Bool-cases (ltb 0x7fffffff cap)) [
    | inl last ↦ rw (small, last) (omega arith)
    | inr more ↦
        let fits : cap ≤ 0x7fffffff = ground arith in
        let same : cap * 2 % u32_mod ≡ cap * 2 = omega arith in
        rw (small, more, same)
          (grow_lem fuel need (cap * 2) hn (omega arith) (omega arith)
            (omega (arith, ap (λ (t : ℕ). cap * t) (pow_suc fuel))))
  ]
]

-- Room for more, or an error that is there already or from now on.
abbrev Reserved : ℕ → Buf → Rc × Buf → Type 0
Reserved add b out =
    ((out.0 ≡ fail) × (out.1.err ≡ true) × (out.1.bytes ≡ b.bytes) × (out.1.cap ≡ b.cap))
    ⊎ ((out.0 ≡ ok)
        × (b.err ≡ false)
        × (out.1.err ≡ false)
        × (out.1.bytes ≡ b.bytes)
        × (len b ≤ b.cap → b.cap < 2 ^ 32 → (len b + add ≤ out.1.cap) × (out.1.cap < 2 ^ 32)))

reserve-Reserved : (add : ℕ) (b : Buf) → Reserved add b (reserve add b)
unfolding reserve
reserve-Reserved add b =
    let (got, memory) = allocate b.memory in
    elim (Bool-cases b.err) [
      | inl bad ↦ rw bad (inl (refl, refl, refl, refl))
      | inr fine ↦ elim (Bool-cases (ltb (0xffffffff - len b) add)) [
        | inl over ↦ rw (fine, over) (inl (refl, refl, refl, refl))
        | inr in_word ↦ elim (Bool-cases (leb (len b + add) b.cap)) [
          | inl roomy ↦
              rw (fine, in_word, roomy) (inr (refl, refl, refl, refl, λ h w. (leb→le _ _ roomy, w)))
          | inr full ↦ elim (Bool-cases got) [
            | inr denied ↦ rw (fine, in_word, full, denied) (inl (refl, refl, refl, refl))
            | inl granted ↦
                rw (fine, in_word, full, granted)
                  (inr (refl, refl, refl, refl, λ h w. grown h w in_word))
          ]
        ]
      ]
    ]
  where
    start : ℕ
    start = if b.cap == 0 then 128 else b.cap

    grown :
        len b ≤ b.cap
        → b.cap < 2 ^ 32
        → ltb (0xffffffff - len b) add ≡ false
        → (len b + add ≤ grow 32 (len b + add) start) × (grow 32 (len b + add) start < 2 ^ 32)
    grown fits word in_word =
        let need : len b + add < 2 ^ 32 = ground arith in
        let pos : 0 < start = ground arith in
        let small : start < 2 ^ 32 = ground arith in
        grow_lem 32 (len b + add) start need pos small (omega arith)

-- What an operation on a buffer leaves: with no error so far, the bytes `bs` behind those that were
-- there; an error stays.
pub record Writes (bs : Bytes) (b out : Buf) : Type 0 where
  pub wrote : out.err ≡ false → (b.err ≡ false) × (out.bytes ≡ b.bytes ++ bs)
  pub within : IsBuf b → IsBuf out

pub Writes-trans :
    (ds bs : Bytes) (a b c : Buf) → Writes ds a b → Writes bs b c → Writes (ds ++ bs) a c
Writes-trans ds bs a b c p q = record {
  wrote = λ e.
      (let (fine, bytes) = q.wrote e in
        let (fine', bytes') = p.wrote fine in
        (fine', bytes ∙ ap (λ l. l ++ bs) bytes' ∙ append_assoc a.bytes ds bs));
  within = λ h. q.within (p.within h);
}

-- A write keeps a buffer within its capacity and its capacity within a word; it appends the bytes, or
-- leaves an error. An error stays.
pub put-Writes : (bs : Bytes) (b : Buf) → Writes bs b (put bs b)
unfolding put written
put-Writes bs b = by_room (reserve (length bs) b) (reserve-Reserved (length bs) b)
  where
    by_room : (out : Rc × Buf) → Reserved (length bs) b out → Writes bs b (written bs out)
    by_room (fail, c) (inl (f, e, same, room)) = record {
      wrote = λ g. cc (sym e ∙ g);
      within = λ h. record {
        fits = omega (arith, h.fits, ap length same);
        word = omega (arith, h.word);
      };
    }
    by_room (ok, c) (inl (f, e, same, room)) = cc f
    by_room (fail, c) (inr (o, fine, e, same, room)) = cc o
    by_room (ok, c) (inr (o, fine, e, same, room)) = record {
      wrote = λ g. (fine, ap (λ l. l ++ bs) same);
      within = λ h. record {
        fits = omega (arith, (room h.fits h.word).0, length-append c.bytes bs, ap length same);
        word = (room h.fits h.word).1;
      };
    }

-- No error, and memory left.
pub record Open (b : Buf) : Type 0 where
  pub fine : b.err ≡ false
  pub memory : b.memory ≡ []

-- With memory left, a write that keeps the length within a word succeeds.
pub put-Open : (bs : Bytes) (b : Buf) → Open b → len b + length bs < 2 ^ 32 → Open (put bs b)
unfolding put written reserve allocate
put-Open bs b o room =
    let in_word : ltb (0xffffffff - len b) (length bs) ≡ false = ground arith in
    elim (Bool-cases (leb (len b + length bs) b.cap)) [
      | inl roomy ↦ simp (o.fine, in_word, roomy) (record { fine = refl; memory = o.memory })
      | inr full ↦ simp (o.fine, in_word, full, o.memory) (record { fine = refl; memory = refl })
    ]
