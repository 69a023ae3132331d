-- ===== src/Common/Windows.antt =====
-- The windows of the latest values that the services of the analytics crate keep in a `VecDeque`.
use w16crypto_engine.Base.{
  length, drop, take, ltb, length-append, ℕ, zero, suc, ◌-◌, ◌≤◌, ◌≡◌, List, [], ◌∷◌, ◌++◌, arith,
  if◌then◌else◌, Bool, true, false,
}

-- The elements from the last to the first.
unfoldable pub reversed : {A : Type 0} → List A → List A → List A
reversed [] acc = acc
reversed (x ∷ xs) acc = reversed xs (x ∷ acc)

-- `iter().rev().take(n)`
abbrev pub latest : {A : Type 0} → ℕ → List A → List A
latest n xs = take n (reversed xs [])

-- `is_empty()`
abbrev pub is_nil : {A : Type 0} → List A → Bool
is_nil [] = true
is_nil (x ∷ xs) = false

-- `push_back`, and `pop_front` if the window is longer than `n`.
abbrev pub push_window : {A : Type 0} → ℕ → List A → A → List A
push_window n xs x = if ltb n (length (xs ++ x ∷ [])) then drop 1 (xs ++ x ∷ []) else xs ++ x ∷ []

pub length-drop : {A : Type 0} (n : ℕ) (xs : List A) → length (drop n xs) ≡ length xs - n
length-drop zero xs = omega arith
length-drop (suc n) [] = omega arith
length-drop (suc n) (x ∷ xs) = ground (arith, length-drop n xs)

pub push_window-length :
    {A : Type 0} (n : ℕ) (xs : List A) (x : A) → length xs ≤ n → length (push_window n xs x) ≤ n
push_window-length n xs x h =
    ground (arith, h, length-append xs (x ∷ []), length-drop 1 (xs ++ x ∷ []))
