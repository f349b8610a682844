-- ===== src/Seri/Ends.antt =====
-- The unpacking half of lualib-src/lua-seri.c ends on every stream.
use pskynet.Prelude.{
  ℕ, zero, suc, ◌+◌, ◌*◌, ◌/◌, ◌^◌, ◌≤◌, ◌<◌, ◌≢◌, Bool, true, false, not, ◌||◌, List, [], ◌∷◌,
  arith, bit_and, ◌==◌, ltb, if◌then◌else◌, length, length-drop,
}
use pskynet.Prelude.Bytes.{byte_at}
use pskynet.Prelude.Words.{is_negative, as_int}
use pskynet.Prelude.Result.{Result, ok, err, ◌>>=◌}
use pskynet.Seri.{Value, string, type_number, number_real}
use pskynet.Seri.Read.{
  Error, invalid_stream, negative_size, stuck, ReadBlock, Reading, rb_read, get_buffer, get_number,
  get_integer, table_size, long_string, push_value, is_nil, unpack_one, unpack_table, unpack_array,
  unpack_hash, unpack_loop, unpack, enough,
}

-- The fuel has not run out, and fewer bytes than so many are left.
abbrev Ends {ℓ} : {A : Type ℓ} → ℕ → Reading A → Type 0
Ends left (ok (a, rb)) = length rb < left
Ends left (err e) = e ≢ stuck

bind {ℓ κ} :
    {A : Type ℓ} {B : Type κ} (left last : ℕ) (r : Reading A) (f : A × ReadBlock → Reading B)
    → Ends left r
    → ((a : A) (rb : ReadBlock) → length rb < left → Ends last (f (a, rb)))
    → Ends last (r >>= f)
bind left last (ok (a, rb)) f h next = next a rb h
bind left last (err e) f h next = h

weaken {ℓ} : {A : Type ℓ} (left last : ℕ) (r : Reading A) → left ≤ last → Ends left r → Ends last r
weaken left last (ok (a, rb)) le h = omega arith
weaken left last (err e) le h = h

choose {ℓ} :
    {A : Type ℓ} (left : ℕ) (b : Bool) (r s : Reading A)
    → Ends left r
    → Ends left s
    → Ends left (if b then r else s)
choose left true r s p q = p
choose left false r s p q = q

invalid-ne-stuck : invalid_stream ≢ stuck
invalid-ne-stuck e = cc

negative-ne-stuck : negative_size ≢ stuck
negative-ne-stuck e = cc

-- The bytes that are left when nothing has to be taken.
abbrev all : ReadBlock → ℕ
all rb = suc (length rb)

rb_read-Ends : (rb : ReadBlock) (sz : ℕ) → Ends (all rb) (rb_read rb sz)
unfolding rb_read
rb_read-Ends rb sz =
    choose (all rb) (ltb (length rb) sz) _ _ invalid-ne-stuck (omega (arith, length-drop sz rb))

-- A read of a byte takes one.
rb_read_one : (rb : ReadBlock) → Ends (length rb) (rb_read rb 1)
unfolding rb_read
rb_read_one [] = invalid-ne-stuck
rb_read_one (b ∷ rb) =
    choose (suc (length rb)) (ltb (length (b ∷ rb)) 1) _ _ invalid-ne-stuck (omega arith)

get_buffer-Ends : (rb : ReadBlock) (len : ℕ) → Ends (all rb) (get_buffer rb len)
unfolding get_buffer
get_buffer-Ends rb len =
    choose (all rb) (is_negative len) _ _ negative-ne-stuck (rb_read-Ends rb len)

get_number-Ends : (rb : ReadBlock) (sz : ℕ) → Ends (all rb) (get_number rb sz)
unfolding get_number
get_number-Ends rb sz =
    bind (all rb) (all rb) (rb_read rb sz) _ (rb_read-Ends rb sz) (λ bytes left h. h)

get_integer-Ends : (cookie : ℕ) (rb : ReadBlock) → Ends (all rb) (get_integer cookie rb)
unfolding get_integer
get_integer-Ends cookie rb = choose (all rb) (cookie == 0) _ _ (omega arith) (
    choose (all rb) (cookie == 1) _ _ (get_number-Ends rb 1) (
      choose (all rb) (cookie == 2) _ _ (get_number-Ends rb 2) (
        choose (all rb) (cookie == 4) _ _
          (bind (all rb) (all rb) (get_number rb 4) _ (get_number-Ends rb 4) (λ n left h. h))
          (choose (all rb) (cookie == 6) _ _ (get_number-Ends rb 8) invalid-ne-stuck))))

table_size-Ends : (cookie : ℕ) (rb : ReadBlock) → Ends (all rb) (table_size cookie rb)
unfolding table_size
table_size-Ends cookie rb =
    choose (all rb) (cookie == 31) _ _
      (bind (all rb) (all rb) (rb_read rb 1) _ (rb_read-Ends rb 1) (λ t left h.
        choose {A = ℕ} (all rb)
          (not (bit_and (byte_at t 0) 7 == type_number) || (byte_at t 0 / 2 ^ 3 == number_real))
          (err invalid_stream) _ invalid-ne-stuck
          (bind {A = ℕ} {B = ℕ} (all rb) (all rb) (get_integer (byte_at t 0 / 2 ^ 3) left)
            (λ (r : ℕ × ReadBlock). ok (as_int r.0, r.1))
            (weaken (all left) (all rb) _ (omega arith)
              (get_integer-Ends (byte_at t 0 / 2 ^ 3) left))
            (λ n last k. k))))
      (omega arith)

-- A number and then so many bytes.
sized_text :
    (rb : ReadBlock) (w : ℕ)
    → Ends
        (all rb)
        (do (n, rb') ← get_number rb w; (str, rb'') ← get_buffer rb' n; ok (string str, rb''))
sized_text rb w = bind (all rb) (all rb) (get_number rb w) _ (get_number-Ends rb w) (λ n left h.
    bind (all rb) (all rb) (get_buffer left n) _
      (weaken (all left) (all rb) _ (omega arith) (get_buffer-Ends left n)) (λ str last k. k))

long_string-Ends : (cookie : ℕ) (rb : ReadBlock) → Ends (all rb) (long_string cookie rb)
unfolding long_string
long_string-Ends cookie rb =
    choose (all rb) (cookie == 2) _ _ (sized_text rb 2)
      (choose (all rb) (not (cookie == 4)) _ _ invalid-ne-stuck (sized_text rb 4))

push_value-Ends :
    (tables : ℕ → ReadBlock → Reading Value) (type cookie : ℕ) (rb : ReadBlock)
    → Ends (all rb) (tables cookie rb)
    → Ends (all rb) (push_value tables type cookie rb)
unfolding push_value
push_value-Ends tables type cookie rb h = choose (all rb) (type == 0) _ _ (omega arith) (
    choose (all rb) (type == 1) _ _ (omega arith) (
      choose (all rb) (type == 2) _ _
        (choose (all rb) (cookie == 8) _ _
          (bind (all rb) (all rb) (get_number rb 8) _ (get_number-Ends rb 8) (λ n left k. k))
          (bind (all rb) (all rb) (get_integer cookie rb) _ (get_integer-Ends cookie rb)
            (λ n left k. k)))
        (choose (all rb) (type == 3) _ _
          (bind (all rb) (all rb) (get_number rb 8) _ (get_number-Ends rb 8) (λ n left k. k))
          (choose (all rb) (type == 4) _ _
            (bind (all rb) (all rb) (get_buffer rb cookie) _ (get_buffer-Ends rb cookie)
              (λ str left k. k))
            (choose (all rb) (type == 5) _ _ (long_string-Ends cookie rb)
              (choose (all rb) (type == 6) _ _ h invalid-ne-stuck))))))

mutual
  unfolding unpack_one unpack_table unpack_array unpack_hash

  unpack_one-Ends :
      (n : ℕ) (rb : ReadBlock) → 3 * length rb + 1 ≤ n → Ends (length rb) (unpack_one n rb)
  unpack_one-Ends zero rb h = absurd (omega arith)
  unpack_one-Ends (suc n) rb h =
      bind (length rb) (length rb) (rb_read rb 1) _ (rb_read_one rb) (λ t left k.
        weaken (all left) (length rb) _ (omega arith) (
          push_value-Ends (λ cookie rest. unpack_table n cookie rest) (bit_and (byte_at t 0) 7)
            (byte_at t 0 / 2 ^ 3) left
            (unpack_table-Ends n (byte_at t 0 / 2 ^ 3) left (omega arith))))

  unpack_table-Ends :
      (n cookie : ℕ) (rb : ReadBlock)
      → 3 * length rb + 3 ≤ n
      → Ends (all rb) (unpack_table n cookie rb)
  unpack_table-Ends zero cookie rb h = absurd (omega arith)
  unpack_table-Ends (suc n) cookie rb h =
      bind (all rb) (all rb) (table_size cookie rb) _ (table_size-Ends cookie rb) (λ size left k.
        bind (all rb) (all rb) (unpack_array n (if is_negative size then 0 else size) left) _
          (weaken (all left) (all rb) _ (omega arith)
            (unpack_array-Ends n (if is_negative size then 0 else size) left (omega arith)))
          (λ vs last k'.
            bind (all rb) (all rb) (unpack_hash n last) _
              (weaken (all last) (all rb) _ (omega arith) (unpack_hash-Ends n last (omega arith)))
              (λ ps end k''. k'')))

  unpack_array-Ends :
      (n size : ℕ) (rb : ReadBlock) → 3 * length rb + 2 ≤ n → Ends (all rb) (unpack_array n size rb)
  unpack_array-Ends zero zero rb h = absurd (omega arith)
  unpack_array-Ends zero (suc size) rb h = absurd (omega arith)
  unpack_array-Ends (suc n) zero rb h = omega arith
  unpack_array-Ends (suc n) (suc size) rb h =
      bind (length rb) (all rb) (unpack_one n rb) _ (unpack_one-Ends n rb (omega arith))
        (λ v left k.
          bind (all rb) (all rb) (unpack_array n size left) _
            (weaken (all left) (all rb) _ (omega arith)
              (unpack_array-Ends n size left (omega arith)))
            (λ vs last k'. k'))

  unpack_hash-Ends :
      (n : ℕ) (rb : ReadBlock) → 3 * length rb + 2 ≤ n → Ends (all rb) (unpack_hash n rb)
  unpack_hash-Ends zero rb h = absurd (omega arith)
  unpack_hash-Ends (suc n) rb h =
      bind (length rb) (all rb) (unpack_one n rb) _ (unpack_one-Ends n rb (omega arith))
        (λ key left k. choose (all rb) (is_nil key) _ _ (omega arith) (
          bind (length left) (all rb) (unpack_one n left) _ (unpack_one-Ends n left (omega arith))
            (λ v last k'.
              bind (all rb) (all rb) (unpack_hash n last) _
                (weaken (all last) (all rb) _ (omega arith) (unpack_hash-Ends n last (omega arith)))
                (λ ps end k''. k''))))

-- A list of values and no rest.
abbrev Finishes : Result Error (List Value) → Type 0
Finishes r = r ≢ err stuck

ok-ne-stuck : (vs : List Value) → Finishes (ok vs)
ok-ne-stuck vs e = cc

err-ne-stuck : (e : Error) → e ≢ stuck → Finishes (err e)
err-ne-stuck e h k = h (cc)

more : (v : Value) (r : Result Error (List Value)) → Finishes r → Finishes (r >>= λ vs. ok (v ∷ vs))
more v (ok vs) h = ok-ne-stuck (v ∷ vs)
more v (err e) h = h

first :
    (left : ℕ) (r : Reading Value) (f : Value × ReadBlock → Result Error (List Value))
    → Ends left r
    → ((v : Value) (rb : ReadBlock) → length rb < left → Finishes (f (v, rb)))
    → Finishes (r >>= f)
first left (ok (v, rb)) f h next = next v rb h
first left (err e) f h next = err-ne-stuck e h

unpack_loop-Finishes : (n : ℕ) (rb : ReadBlock) → length rb ≤ n → Finishes (unpack_loop n rb)
unfolding unpack_loop
unpack_loop-Finishes n [] h = ok-ne-stuck []
unpack_loop-Finishes zero (b ∷ rb) h = absurd (omega arith)
unpack_loop-Finishes (suc n) (b ∷ rb) h =
    first (suc (length rb)) (unpack_one (enough (b ∷ rb)) (b ∷ rb)) _
      (unpack_one-Ends (enough (b ∷ rb)) (b ∷ rb) (omega arith))
      (λ v left k. more v (unpack_loop n left) (unpack_loop-Finishes n left (omega arith)))

-- As long as the C and Lua stacks and the memory are enough for the tables that the bytes have:
-- whatever the bytes are, the three calls for each byte are enough, so `_luaseri_unpack` ends with
-- values or an error.
pub unpack-Finishes : (rb : ReadBlock) → unpack rb ≢ err stuck
unfolding unpack
unpack-Finishes rb = unpack_loop-Finishes (length rb) rb (omega arith)
