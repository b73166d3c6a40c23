-- ===== src/Simulator/Corrupt.antt =====
-- One byte of a packet replaced behind its length: the parser rejects it.
use counter_drone_server.Base.{
  ℕ, suc, ◌+◌, ◌-◌, ◌*◌, ◌≤◌, ◌<◌, ◌≡◌, ◌≢◌, refl, sym, ap, ap₂, ◌∙◌, arith, [], ◌∷◌, ◌++◌, length,
  take, drop, set, All, get_or-set_self, get_or-set_ne, take-set_lt, take-set_ge, set_split,
  list_split, take-length, get_or-append, length-append, get_or_past, get_or-All,
}
use native.Mathlib.Decide.{dec_lt}
use counter_drone_server.Bits.Mask.{bit_or_bytes}
use counter_drone_server.Packet.{BytesArray, IsByte}
use counter_drone_server.Packet.Crc.{calculate_crc16}
use counter_drone_server.Packet.Crc.Detect.{single_byte_error_changes_crc}
use counter_drone_server.Parser.{big_endian}
use counter_drone_server.Parser.Closed.{byte_at, carried_crc}

big_endian_sum : (hi lo : ℕ) → hi < 256 → lo < 256 → big_endian hi lo ≡ hi * 256 + lo
big_endian_sum hi lo h l = omega (arith, bit_or_bytes hi lo l)

-- A message and the two bytes of the checksum that it carries.
module _ (body : BytesArray) (hi lo : ℕ) where
  abbrev sealed : BytesArray
  sealed = body ++ hi ∷ lo ∷ []

  body_of_sealed : take (length body) sealed ≡ body
  body_of_sealed = take-length (length body) body (hi ∷ lo ∷ []) refl

  high_of_sealed : byte_at sealed (length body) ≡ hi
  high_of_sealed =
      let e : length body ≡ length body + 0 = omega arith in
      ap (λ k. byte_at sealed k) e ∙ get_or_past body (hi ∷ lo ∷ []) 0 0

  low_of_sealed : byte_at sealed (length body + 1) ≡ lo
  low_of_sealed = get_or_past body (hi ∷ lo ∷ []) 1 0

  carried_lem :
      (p : BytesArray)
      → carried_crc p (length body + 2)
        ≡ big_endian (byte_at p (length body)) (byte_at p (length body + 1))
  carried_lem p =
      let e : length body + 2 - 2 ≡ length body = omega arith in
      let e' : length body + 2 - 1 ≡ length body + 1 = omega arith in
      ap₂ (λ j k. big_endian (byte_at p j) (byte_at p k)) e e'

  -- Such a message has its checksum no more when one byte changes, of the message or of the
  -- checksum.
  module _ (i y : ℕ) (h : hi < 256) (l : lo < 256) (small : y < 256)
      (right : calculate_crc16 body ≡ big_endian hi lo) (new : y ≢ byte_at sealed i) where
    abbrev spoilt : BytesArray
    spoilt = set sealed i y

    in_body :
        All IsByte body
        → i < length body
        → calculate_crc16 (take (length body) spoilt) ≢ carried_crc spoilt (length body + 2)
    in_body bytes inside q =
        single_byte_error_changes_crc (take i body) (drop (suc i) body) (byte_at body i) y
          (get_or-All IsByte body i 0 bytes inside) small
          (λ e. new (sym e ∙ sym (get_or-append body (hi ∷ lo ∷ []) i 0 inside)))
          (ap calculate_crc16 (sym (list_split body i 0 inside))
            ∙ right
            ∙ sym same_carried
            ∙ sym q
            ∙ ap calculate_crc16 (
                take-set_lt (length body) sealed i y inside
                ∙ ap (λ b. set b i y) body_of_sealed
                ∙ set_split body i y 0 inside))
      where
        same_carried : carried_crc spoilt (length body + 2) ≡ big_endian hi lo
        same_carried =
            carried_lem spoilt
            ∙ ap₂ big_endian
                (get_or-set_ne sealed i (length body) y 0 (λ e. omega arith) ∙ high_of_sealed)
                (get_or-set_ne sealed i (length body + 1) y 0 (λ e. omega arith) ∙ low_of_sealed)

    -- The message is as it was when the checksum changes.
    still_right : length body ≤ i → calculate_crc16 (take (length body) spoilt) ≡ hi * 256 + lo
    still_right past =
        ap calculate_crc16 (take-set_ge (length body) sealed i y past ∙ body_of_sealed)
        ∙ right
        ∙ big_endian_sum hi lo h l

    in_high :
        i ≡ length body
        → calculate_crc16 (take (length body) spoilt) ≢ carried_crc spoilt (length body + 2)
    in_high e q =
        let at_i : byte_at sealed i ≡ hi = ap (byte_at sealed) e ∙ high_of_sealed in
        let high : byte_at spoilt (length body) ≡ y =
          ap (byte_at spoilt) (sym e)
          ∙ get_or-set_self sealed i y 0 (omega (arith, length-append body (hi ∷ lo ∷ []))) in
        let low : byte_at spoilt (length body + 1) ≡ lo =
          get_or-set_ne sealed i (length body + 1) y 0 (λ k. omega arith) ∙ low_of_sealed in
        let sums : hi * 256 + lo ≡ y * 256 + lo =
          sym (still_right (omega arith))
          ∙ q
          ∙ carried_lem spoilt
          ∙ ap₂ big_endian high low
          ∙ big_endian_sum y lo small l in
        new (omega arith)

    in_low :
        i ≡ length body + 1
        → calculate_crc16 (take (length body) spoilt) ≢ carried_crc spoilt (length body + 2)
    in_low e q =
        let at_i : byte_at sealed i ≡ lo = ap (byte_at sealed) e ∙ low_of_sealed in
        let high : byte_at spoilt (length body) ≡ hi =
          get_or-set_ne sealed i (length body) y 0 (λ k. omega arith) ∙ high_of_sealed in
        let low : byte_at spoilt (length body + 1) ≡ y =
          ap (byte_at spoilt) (sym e)
          ∙ get_or-set_self sealed i y 0 (omega (arith, length-append body (hi ∷ lo ∷ []))) in
        let sums : hi * 256 + lo ≡ hi * 256 + y =
          sym (still_right (omega arith))
          ∙ q
          ∙ carried_lem spoilt
          ∙ ap₂ big_endian high low
          ∙ big_endian_sum hi y h small in
        new (omega arith)

    pub set-crc :
        All IsByte body
        → i < length body + 2
        → calculate_crc16 (take (length body) spoilt) ≢ carried_crc spoilt (length body + 2)
    set-crc bytes inside = elim (dec_lt i (length body)) [
      | yes before ↦ in_body bytes before
      | no past ↦ elim (dec_lt (length body) i) [
        | yes last ↦ in_low (omega arith)
        | no first ↦ in_high (omega arith)
      ]
    ]
