-- ===== src/Guest/Output.antt =====
-- cmd/sandboxd/main.go: cappedBuffer. A Go string is its bytes.
use Prim.Native.Char.{code}
use Prim.Native.String.{◌++◌ as str_append}
use web_sandbox.Common.Decimal.{itoa}
use web_sandbox.Common.{
  ◌++◌, List, String, [], ap, if◌then◌else◌, length, ltb, sym, ℕ, ◌*◌, ◌+◌, ◌-◌, ◌^◌, ◌∙◌, ◌∷◌, ◌≡◌,
  Bool-cases, arith, false, inl, inr, leb, length-append, refl, true, ◌<◌, ◌≤◌, take, concat,
  length-take-le, take-all, append_nil, take-zero, append_assoc, take-append,
}

-- agentapi.MaxOutputBytes
unfoldable pub max_output_bytes : ℕ
max_output_bytes = 2 * 2 ^ 20

pub record CappedBuffer : Type 0 where
  pub b : List ℕ
  pub dropped : ℕ

abbrev pub empty_buffer : CappedBuffer
empty_buffer = record { b = []; dropped = 0 }

-- The body of Write where there is room.
abbrev written : ℕ → List ℕ → CappedBuffer → CappedBuffer
written room p c = record { b = c.b ++ take room p; dropped = c.dropped + (length p - room) }

unfoldable pub write : List ℕ → CappedBuffer → ℕ × CappedBuffer
write p c =
    let room : ℕ = max_output_bytes - length c.b in
    (
      length p,
      if ltb 0 room
          then written (if ltb (length p) room then length p else room) p c
          else record c { dropped = c.dropped + length p },
    )

-- The buffer after the writes of a command.
unfoldable pub write_all : List (List ℕ) → CappedBuffer → CappedBuffer
write_all [] c = c
write_all (p ∷ ps) c = write_all ps (write p c).1

unfoldable pub codes : String → List ℕ
codes String.[] = []
codes (String.◌∷◌ c s) = code c ∷ codes s

unfoldable pub notice : ℕ → List ℕ
unfolding codes
notice n = codes (str_append "\n... [" (str_append (itoa n) " bytes truncated]"))

-- cappedBuffer.String
unfoldable pub text : CappedBuffer → List ℕ
unfolding notice
text c = if ltb 0 c.dropped then c.b ++ notice c.dropped else c.b

-- The buffer that has been given these bytes.
abbrev capped : List ℕ → CappedBuffer
capped xs = record { b = take max_output_bytes xs; dropped = length xs - max_output_bytes }

CappedBuffer_ext :
    (b b' : List ℕ) (d d' : ℕ)
    → b ≡ b'
    → d ≡ d'
    → ◌≡◌ {A = CappedBuffer} (record { b = b; dropped = d }) (record { b = b'; dropped = d' })
CappedBuffer_ext b b' d d' p q = cc

-- Where the buffer is full.
write_full :
    (p xs : List ℕ) → max_output_bytes ≤ length xs → (write p (capped xs)).1 ≡ capped (xs ++ p)
unfolding write
write_full p xs h =
    let full : length (take max_output_bytes xs) ≡ max_output_bytes =
      length-take-le max_output_bytes xs h in
    let no_room : max_output_bytes - length xs ≡ 0 = omega arith in
    let closed : ltb 0 (max_output_bytes - length (take max_output_bytes xs)) ≡ false =
      ground (arith, full) in
    rw closed (
      CappedBuffer_ext _ _ _ _
        (sym (append_nil (take max_output_bytes xs))
          ∙ ap (λ ys. take max_output_bytes xs ++ ys)
              (sym (take-zero p) ∙ ap (λ n. take n p) (sym no_room))
          ∙ sym (take-append max_output_bytes xs p))
        (omega (arith, length-append xs p)))

-- The part of `p` that Write keeps.
take_room :
    (room : ℕ) (p : List ℕ) → take (if ltb (length p) room then length p else room) p ≡ take room p
take_room room p = elim (Bool-cases (ltb (length p) room)) [
  | inl fits ↦ rw fits (take-all (length p) p (omega arith) ∙ sym (take-all room p (ground arith)))
  | inr cut ↦ rw cut refl
]

write_room :
    (p xs : List ℕ) → length xs < max_output_bytes → (write p (capped xs)).1 ≡ capped (xs ++ p)
unfolding write
write_room p xs h =
    let whole : take max_output_bytes xs ≡ xs = take-all max_output_bytes xs (omega arith) in
    let open_ : ltb 0 (max_output_bytes - length (take max_output_bytes xs)) ≡ true =
      rw whole (ground arith) in
    rw open_ (
      CappedBuffer_ext _ _ _ _
        (ap (λ ys. take max_output_bytes xs ++ ys) (take_room _ p)
          ∙ ap (λ zs. take max_output_bytes xs ++ take (max_output_bytes - length zs) p) whole
          ∙ sym (take-append max_output_bytes xs p))
        (rw whole (ground (arith, length-append xs p))))

write-capped : (p xs : List ℕ) → (write p (capped xs)).1 ≡ capped (xs ++ p)
write-capped p xs = elim (Bool-cases (leb max_output_bytes (length xs))) [
  | inl full ↦ write_full p xs (ground arith)
  | inr room ↦ write_room p xs (ground arith)
]

write_all-capped :
    (ps : List (List ℕ)) (xs : List ℕ) → write_all ps (capped xs) ≡ capped (xs ++ concat ps)
unfolding write_all concat
write_all-capped [] xs = ap capped (sym (append_nil xs))
write_all-capped (p ∷ ps) xs =
    ap (write_all ps) (write-capped p xs)
    ∙ write_all-capped ps (xs ++ p)
    ∙ ap capped (append_assoc xs p (concat ps))

-- What is kept of an output: all of it if it fits, or else its first part and how many bytes were cut.
abbrev pub kept : List ℕ → List ℕ
kept xs =
    if leb (length xs) max_output_bytes
    then xs
    else take max_output_bytes xs ++ notice (length xs - max_output_bytes)

start_capped : empty_buffer ≡ capped []
unfolding take
start_capped = CappedBuffer_ext [] [] 0 (0 - max_output_bytes) refl (omega arith)

text-capped : (xs : List ℕ) → text (capped xs) ≡ kept xs
unfolding text
text-capped xs = elim (Bool-cases (leb (length xs) max_output_bytes)) [
  | inl fits ↦
      let nothing : ltb 0 (length xs - max_output_bytes) ≡ false = ground arith in
      rw (nothing, fits) (take-all max_output_bytes xs (ground arith))
  | inr cut ↦
      let some_ : ltb 0 (length xs - max_output_bytes) ≡ true = ground arith in rw (some_, cut) refl
]

-- However a command's output is split into writes, each write reports that it took all its bytes, and
-- the text at the end is the whole output if it has at most MaxOutputBytes bytes, and else its first
-- MaxOutputBytes bytes with a notice of how many were cut.
pub text-write_all :
    (ps : List (List ℕ))
    → ((p : List ℕ) (c : CappedBuffer) → (write p c).0 ≡ length p)
      × (text (write_all ps empty_buffer) ≡ kept (concat ps))
unfolding write text
text-write_all ps = (
  (λ p c. refl),
  ap text (ap (write_all ps) start_capped ∙ write_all-capped ps []) ∙ text-capped (concat ps),
)
