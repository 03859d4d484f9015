-- ===== src/Schema/Codec.antt =====
-- The bytes of the schemas.
use lsm_storage.Prelude.{
  ℕ, ◌+◌, ◌^◌, ◌<◌, ◌≡◌, refl, ap, sym, ◌∙◌, List, ◌++◌, length, take, drop, to_le, from_le, assoc,
  take-to_le, from_le-to_le, length-to_le, length-append, take-append, drop-append_past, arith,
}
use lsm_storage.Schema.{ColumnSchema, column_bytes, column_of}

-- Reads behind the first of two pieces, and of it.
behind : (m n : ℕ) (xs ys : List ℕ) → length xs ≡ m → drop (m + n) (xs ++ ys) ≡ drop n ys
behind m n xs ys e = ap (λ k. drop (k + n) (xs ++ ys)) (sym e) ∙ drop-append_past n xs ys

front : (m : ℕ) (xs ys : List ℕ) → length xs ≡ m → take m (xs ++ ys) ≡ xs
front m xs ys e = ap (λ k. take k (xs ++ ys)) (sym e) ∙ take-append xs ys

integer : (n v : ℕ) (rest : List ℕ) → v < 256 ^ n → from_le (take n (to_le n v ++ rest)) ≡ v
integer n v rest small = ap from_le (take-to_le n v rest) ∙ from_le-to_le n v small

-- Pieces that stand one behind the other, read at their places.
module _ (A B C D E X : List ℕ) where
  unfoldable pub pieces : List ℕ
  pieces = A ++ (B ++ (C ++ (D ++ (E ++ X))))

  module _ {a b c d e : ℕ} (hA : length A ≡ a) (hB : length B ≡ b) (hC : length C ≡ c)
      (hD : length D ≡ d) (hE : length E ≡ e) where
    pub first : take a pieces ≡ A
    unfolding pieces
    first = front a A _ hA

    pub second : take b (drop (a + 0) pieces) ≡ B
    unfolding pieces
    second = ap (take b) (behind a 0 A _ hA) ∙ front b B _ hB

    pub third : take c (drop (a + (b + 0)) pieces) ≡ C
    unfolding pieces
    third = ap (take c) (behind a (b + 0) A _ hA ∙ behind b 0 B _ hB) ∙ front c C _ hC

    pub fourth : take d (drop (a + (b + (c + 0))) pieces) ≡ D
    unfolding pieces
    fourth =
        ap (take d) (behind a _ A _ hA ∙ behind b (c + 0) B _ hB ∙ behind c 0 C _ hC)
        ∙ front d D _ hD

    pub fifth : take e (drop (a + (b + (c + (d + 0)))) pieces) ≡ E
    unfolding pieces
    fifth =
        ap (take e)
          (behind a _ A _ hA ∙ behind b _ B _ hB ∙ behind c (d + 0) C _ hC ∙ behind d 0 D _ hD)
        ∙ front e E _ hE

    pub sixth : drop (a + (b + (c + (d + (e + 0))))) pieces ≡ X
    unfolding pieces
    sixth =
        behind a _ A _ hA
        ∙ behind b _ B _ hB
        ∙ behind c _ C _ hC
        ∙ behind d (e + 0) D _ hD
        ∙ behind e 0 E _ hE

    pub length-pieces : length pieces ≡ a + (b + (c + (d + (e + length X))))
    unfolding pieces
    length-pieces = omega (
      arith,
      length-append A (B ++ (C ++ (D ++ (E ++ X)))),
      length-append B (C ++ (D ++ (E ++ X))),
      length-append C (D ++ (E ++ X)),
      length-append D (E ++ X),
      length-append E X,
    )

pub record IsColumn (c : ColumnSchema) : Type 0 where
  pub id_fits : c.column_id < 2 ^ 64
  pub name_fits : length c.column_name ≡ 128
  pub type_fits : c.data_type < 2 ^ 32
  pub padding_fits : c.padding < 2 ^ 32
  pub length_fits : c.data_length < 2 ^ 64

column_pieces : ColumnSchema → List ℕ → List ℕ
column_pieces c X =
    pieces (to_le 8 c.column_id) c.column_name (to_le 4 c.data_type) (to_le 4 c.padding)
      (to_le 8 c.data_length) X

column_bytes-append : (c : ColumnSchema) (X : List ℕ) → column_bytes c ++ X ≡ column_pieces c X
unfolding column_bytes column_pieces pieces
column_bytes-append c X =
    rw
      (
        assoc (to_le 8 c.column_id)
            (c.column_name ++ (to_le 4 c.data_type ++ (to_le 4 c.padding ++ to_le 8 c.data_length)))
            X,
        assoc c.column_name (to_le 4 c.data_type ++ (to_le 4 c.padding ++ to_le 8 c.data_length)) X,
        assoc (to_le 4 c.data_type) (to_le 4 c.padding ++ to_le 8 c.data_length) X,
        assoc (to_le 4 c.padding) (to_le 8 c.data_length) X,
      )
      refl

module _ (c : ColumnSchema) (X : List ℕ) (h : IsColumn c) where
  pub column_of-column_bytes : column_of (column_bytes c ++ X) ≡ c
  unfolding column_of column_pieces
  column_of-column_bytes =
      let id = length-to_le 8 c.column_id in
      let ty = length-to_le 4 c.data_type in
      let pad = length-to_le 4 c.padding in
      let len = length-to_le 8 c.data_length in
      ap column_of (column_bytes-append c X)
      ∙ rw
          (
            first _ _ _ _ _ X id h.name_fits ty pad len,
            second _ _ _ _ _ X id h.name_fits ty pad len,
            third _ _ _ _ _ X id h.name_fits ty pad len,
            fourth _ _ _ _ _ X id h.name_fits ty pad len,
            fifth _ _ _ _ _ X id h.name_fits ty pad len,
            from_le-to_le 8 c.column_id h.id_fits,
            from_le-to_le 4 c.data_type h.type_fits,
            from_le-to_le 4 c.padding h.padding_fits,
            from_le-to_le 8 c.data_length h.length_fits,
          )
          refl

  pub drop-column_bytes : drop 152 (column_bytes c ++ X) ≡ X
  unfolding column_pieces
  drop-column_bytes =
      ap (drop 152) (column_bytes-append c X)
      ∙ sixth _ _ _ _ _ X (length-to_le 8 c.column_id) h.name_fits (length-to_le 4 c.data_type)
          (length-to_le 4 c.padding) (length-to_le 8 c.data_length)

  pub length-column_bytes : length (column_bytes c ++ X) ≡ 152 + length X
  unfolding column_pieces
  length-column_bytes =
      ap length (column_bytes-append c X)
      ∙ length-pieces _ _ _ _ _ X (length-to_le 8 c.column_id) h.name_fits
          (length-to_le 4 c.data_type) (length-to_le 4 c.padding) (length-to_le 8 c.data_length)
      ∙ omega arith
