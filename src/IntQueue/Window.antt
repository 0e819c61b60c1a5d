-- ===== src/IntQueue/Window.antt =====
-- The bytes that stand in the circular buffer from `tail` on.
use pintos_vm.Base.{
  ℕ, zero, suc, ◌+◌, ◌-◌, ◌%◌, ◌≤◌, ◌<◌, ◌≡◌, refl, ◌≢◌, ap, List, [], ◌∷◌, ◌++◌, arith, set,
  get_or, length,
}
use pintos_vm.IntQueue.{IntQueue, bufsize, next}

abbrev pub window : List ℕ → ℕ → ℕ → List ℕ
window buf t zero = []
window buf t (suc n) = get_or buf t 0 ∷ window buf (next t) n

-- How many bytes lie between the two indices, going round.
abbrev pub used : IntQueue → ℕ
used q = (q.head + bufsize - q.tail) % bufsize

abbrev pub contents : IntQueue → List ℕ
contents q = window q.buf q.tail (used q)

pub length-window : (buf : List ℕ) (t n : ℕ) → length (window buf t n) ≡ n
length-window buf t zero = refl
length-window buf t (suc n) = ap suc (length-window buf (next t) n)

pub window-eq-cons :
    (buf : List ℕ) (t n : ℕ) → n ≢ 0 → window buf t n ≡ get_or buf t 0 ∷ window buf (next t) (n - 1)
window-eq-cons buf t zero h = absurd (h refl)
window-eq-cons buf t (suc n) h = ap (λ k. window buf t (suc k)) (omega arith)

get_or-set_self : (xs : List ℕ) (i v : ℕ) → i < length xs → get_or (set xs i v) i 0 ≡ v
get_or-set_self [] i v h = elim h [ ]
get_or-set_self (x ∷ xs) zero v h = refl
get_or-set_self (x ∷ xs) (suc i) v h = get_or-set_self xs i v (omega arith)

get_or-set_ne : (xs : List ℕ) {i j : ℕ} (v : ℕ) → i ≢ j → get_or (set xs i v) j 0 ≡ get_or xs j 0
get_or-set_ne [] v h = refl
get_or-set_ne (x ∷ xs) {i = zero} {j = zero} v h = absurd (h refl)
get_or-set_ne (x ∷ xs) {i = zero} {j = suc j} v h = refl
get_or-set_ne (x ∷ xs) {i = suc i} {j = zero} v h = refl
get_or-set_ne (x ∷ xs) {i = suc i} {j = suc j} v h = get_or-set_ne xs v (λ e. h (ap suc e))

-- A byte written just past a window is its new last byte.
pub window-set :
    (buf : List ℕ) (v n t i : ℕ)
    → bufsize ≤ length buf
    → t < bufsize
    → n < 63
    → i ≡ (t + n) % bufsize
    → window (set buf i v) t (suc n) ≡ window buf t n ++ (v ∷ [])
window-set buf v zero t i hs ht hn e = ground (arith, get_or-set_self buf i v)
window-set buf v (suc n) t i hs ht hn e = ground (
  arith,
  get_or-set_ne buf {i = i} {j = t} v (omega arith),
  window-set buf v n (next t) i hs (omega arith) (omega arith) (omega arith),
)
