-- ===== src/Storage/Wal/Bytes.antt =====
-- An entry survives its way through the bytes of the log.
use let_dx.Base.{
  ℕ, zero, suc, ◌+◌, ◌^◌, ◌<◌, ◌≡◌, ap, sym, ◌∙◌, some, List, [], ◌∷◌, ◌++◌, length, length-append,
  take, drop, take-append, append-nil, replicate, arith,
}
use let_dx.Base.Bytes.{le_bytes, from_le, length-le_bytes, from_le-le_bytes}
use let_dx.Storage.Wal.{
  EntryData, Entry, add_account, make_transfer, update_account, entry_type, payload_bytes,
  entry_bytes, safe_bytes, field, read_payload, read_entry, PayloadFits, EntryFits,
}

length-payload_bytes : (p : EntryData) → length (payload_bytes p) ≡ 33
unfolding payload_bytes
length-payload_bytes (add_account c d f) = simp (length-append, length-le_bytes)
length-payload_bytes (make_transfer s r a) = simp (length-append, length-le_bytes)
length-payload_bytes (update_account i f) = simp (length-append, length-le_bytes)

pub length-entry_bytes : (e : Entry) → length (entry_bytes e) ≡ 50
unfolding entry_bytes
length-entry_bytes e = simp (length-append, length-le_bytes, length-payload_bytes)

pub length-safe_bytes : (e : Entry) → length (safe_bytes e) ≡ 54
unfolding safe_bytes
length-safe_bytes e = simp (length-append, length-le_bytes, length-entry_bytes)

drop-plus : (n o : ℕ) (xs ys : List ℕ) → length xs ≡ n → drop (n + o) (xs ++ ys) ≡ drop o ys
drop-plus zero o [] ys h = ap (λ (t : ℕ). drop t ys) (omega arith)
drop-plus zero o (x ∷ xs) ys h = absurd (omega arith)
drop-plus (suc n) o [] ys h = absurd (omega arith)
drop-plus (suc n) o (x ∷ xs) ys h =
    let next : suc n + o ≡ suc (n + o) = omega arith in
    ap (λ (t : ℕ). drop t (x ∷ (xs ++ ys))) next ∙ drop-plus n o xs ys (omega arith)

-- A field behind the `w` bytes of another value.
skip :
    (w v offset width : ℕ) (rest : List ℕ)
    → field (w + offset) width (le_bytes w v ++ rest) ≡ field offset width rest
skip w v offset width rest =
    ap (λ (t : List ℕ). from_le (take width t))
      (drop-plus w offset (le_bytes w v) rest (length-le_bytes w v))

-- A field that stands first.
here :
    (width v : ℕ) (rest : List ℕ) → v < 256 ^ width → field 0 width (le_bytes width v ++ rest) ≡ v
here width v rest fits =
    ap from_le (take-append width (le_bytes width v) rest (length-le_bytes width v))
    ∙ from_le-le_bytes width v fits

here_last : (width v : ℕ) → v < 256 ^ width → field 0 width (le_bytes width v) ≡ v
here_last width v fits =
    ap (λ (t : List ℕ). field 0 width t) (sym (append-nil (le_bytes width v)))
    ∙ here width v [] fits

-- The payload begins behind the 17 bytes of the header.
skip_header :
    (id ts ty offset width : ℕ) (rest : List ℕ)
    → field (17 + offset) width (le_bytes 8 id ++ (le_bytes 8 ts ++ (le_bytes 1 ty ++ rest)))
      ≡ field offset width rest
skip_header id ts ty offset width rest =
    let front : 17 + offset ≡ 8 + (8 + (1 + offset)) = omega arith in
    ap (λ (t : ℕ). field t width (le_bytes 8 id ++ (le_bytes 8 ts ++ (le_bytes 1 ty ++ rest))))
      front
    ∙ skip 8 id (8 + (1 + offset)) width (le_bytes 8 ts ++ (le_bytes 1 ty ++ rest))
    ∙ skip 8 ts (1 + offset) width (le_bytes 1 ty ++ rest)
    ∙ skip 1 ty offset width rest

-- The bytes of an entry, as its header and whatever follows it.
abbrev layout : ℕ → ℕ → ℕ → List ℕ → List ℕ
layout id ts ty rest = le_bytes 8 id ++ (le_bytes 8 ts ++ (le_bytes 1 ty ++ rest))

read_payload-layout :
    (id ts : ℕ) (p : EntryData)
    → PayloadFits p
    → read_payload (entry_type p) (layout id ts (entry_type p) (payload_bytes p)) ≡ some p
unfolding read_payload entry_type payload_bytes
read_payload-layout id ts (add_account c d f) (hc, hd, hf) =
    let rest = le_bytes 16 c ++ (le_bytes 16 d ++ le_bytes 1 f) in
    let at_c : field 17 16 (layout id ts 1 rest) ≡ c =
      skip_header id ts 1 0 16 rest ∙ here 16 c _ (omega arith) in
    let at_d : field 33 16 (layout id ts 1 rest) ≡ d =
      skip_header id ts 1 16 16 rest ∙ skip 16 c 0 16 _ ∙ here 16 d _ (omega arith) in
    let at_f : field 49 1 (layout id ts 1 rest) ≡ f =
      skip_header id ts 1 32 1 rest
      ∙ skip 16 c 16 1 _
      ∙ skip 16 d 0 1 _
      ∙ here_last 1 f (omega arith) in
    cc (at_c, at_d, at_f)
read_payload-layout id ts (make_transfer s r a) (hs, hr, ha) =
    let rest = le_bytes 8 s ++ (le_bytes 8 r ++ (le_bytes 16 a ++ replicate 1 0)) in
    let at_s : field 17 8 (layout id ts 2 rest) ≡ s =
      skip_header id ts 2 0 8 rest ∙ here 8 s _ (omega arith) in
    let at_r : field 25 8 (layout id ts 2 rest) ≡ r =
      skip_header id ts 2 8 8 rest ∙ skip 8 s 0 8 _ ∙ here 8 r _ (omega arith) in
    let at_a : field 33 16 (layout id ts 2 rest) ≡ a =
      skip_header id ts 2 16 16 rest
      ∙ skip 8 s 8 16 _
      ∙ skip 8 r 0 16 _
      ∙ here 16 a _ (omega arith) in
    cc (at_s, at_r, at_a)
read_payload-layout id ts (update_account i f) (hi, hf) =
    let rest = le_bytes 8 i ++ (le_bytes 1 f ++ replicate 24 0) in
    let at_i : field 17 8 (layout id ts 3 rest) ≡ i =
      skip_header id ts 3 0 8 rest ∙ here 8 i _ (omega arith) in
    let at_f : field 25 1 (layout id ts 3 rest) ≡ f =
      skip_header id ts 3 8 1 rest ∙ skip 8 i 0 1 _ ∙ here 1 f _ (omega arith) in
    cc (at_i, at_f)

entry_type-lt : (p : EntryData) → entry_type p < 256 ^ 1
unfolding entry_type
entry_type-lt p = ground arith

-- An entry whose values fit their fields is read back from its 50 bytes as it was written.
pub read_entry-entry_bytes : (e : Entry) → EntryFits e → read_entry (entry_bytes e) ≡ some e
unfolding read_entry entry_bytes
read_entry-entry_bytes e fits =
    let ty = entry_type e.payload in
    let rest = payload_bytes e.payload in
    let at_type : field 16 1 (layout e.id e.timestamp ty rest) ≡ ty =
      skip 8 e.id 8 1 _ ∙ skip 8 e.timestamp 0 1 _ ∙ here 1 ty rest (entry_type-lt e.payload) in
    let at_id : field 0 8 (layout e.id e.timestamp ty rest) ≡ e.id = here 8 e.id _ (omega arith) in
    let at_time : field 8 8 (layout e.id e.timestamp ty rest) ≡ e.timestamp =
      skip 8 e.id 0 8 _ ∙ here 8 e.timestamp _ (omega arith) in
    let at_payload : read_payload (field 16 1 (entry_bytes e)) (entry_bytes e) ≡ some e.payload =
      ap (λ (t : ℕ). read_payload t (entry_bytes e)) at_type
      ∙ read_payload-layout e.id e.timestamp e.payload fits.payload_fits in
    rw (at_payload, read_entry) (cc (at_id, at_time))
