-- ===== src/Frame/Fields.antt =====
-- The fields of a header as bytes.
use novamind.Prelude.{
  ℕ, zero, suc, ◌+◌, ◌*◌, ◌/◌, ◌%◌, ◌≤◌, ◌<◌, ◌≡◌, refl, sym, ap, ◌∙◌, List, [], ◌∷◌, ◌++◌, length,
  take, map, length-append, take-append, drop-append, append_assoc, arith,
}
use novamind.Wal.{Bytes}
use novamind.Frame.{limit, encode, decode, decode_from, zeros, fit, concat, split}

pub length-encode : (w n : ℕ) → length (encode w n) ≡ w
unfolding encode
length-encode zero n = refl
length-encode (suc w) n =
    length-append (encode w (n / 256)) (n % 256 ∷ []) ∙ omega (arith, length-encode w (n / 256))

decode_from-snoc :
    (acc : ℕ) (bs : Bytes) (b : ℕ) → decode_from acc (bs ++ b ∷ []) ≡ decode_from acc bs * 256 + b
unfolding decode_from
decode_from-snoc acc [] b = refl
decode_from-snoc acc (x ∷ bs) b = decode_from-snoc (acc * 256 + x) bs b

pub decode-encode : (w n : ℕ) → n < limit w → decode (encode w n) ≡ n
unfolding decode encode limit decode_from
decode-encode zero n h = omega arith
decode-encode (suc w) n h =
    decode_from-snoc 0 (encode w (n / 256)) (n % 256)
    ∙ omega (arith, decode-encode w (n / 256) (omega (arith, h)))

length-zeros : (w : ℕ) → length (zeros w) ≡ w
unfolding zeros
length-zeros zero = refl
length-zeros (suc w) = omega (arith, length-zeros w)

length-take_of : (w : ℕ) (xs : Bytes) → w ≤ length xs → length (take w xs) ≡ w
length-take_of zero xs h = refl
length-take_of (suc w) [] h = omega (arith, h)
length-take_of (suc w) (x ∷ xs) h = omega (arith, length-take_of w xs (omega (arith, h)))

pub length-fit : (w : ℕ) (bs : Bytes) → length (fit w bs) ≡ w
unfolding fit
length-fit w bs =
    length-take_of w (bs ++ zeros w) (omega (arith, length-append bs (zeros w), length-zeros w))

pub split-concat : (ps : List Bytes) → split (map length ps) (concat ps) ≡ ps
unfolding split concat
split-concat [] = refl
split-concat (p ∷ ps) =
    rw (take-append p (concat ps), drop-append p (concat ps)) (ap (λ l. p ∷ l) (split-concat ps))

pub concat-append : (ps qs : List Bytes) → concat (ps ++ qs) ≡ concat ps ++ concat qs
unfolding concat
concat-append [] qs = refl
concat-append (p ∷ ps) qs =
    ap (λ l. p ++ l) (concat-append ps qs) ∙ sym (append_assoc p (concat ps) (concat qs))

unfoldable pub sum : List ℕ → ℕ
sum [] = 0
sum (n ∷ ns) = n + sum ns

pub length-concat : (ps : List Bytes) → length (concat ps) ≡ sum (map length ps)
unfolding concat sum
length-concat [] = refl
length-concat (p ∷ ps) = length-append p (concat ps) ∙ omega (arith, length-concat ps)
