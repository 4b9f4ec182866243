-- ===== src/Bytes/Order.antt =====
-- `==` on strings decides equality and `<` is a strict total order.
use gostats.Prelude.{◌≡◌, refl, true, false, [], ◌∷◌, arith}
use gostats.Bytes.Defs.{Bytes, beq, less}

pub beq_refl : (s : Bytes) → beq s s ≡ true
unfolding beq
beq_refl [] = refl
beq_refl (x ∷ s) = ground (arith, beq_refl s)

pub beq→eq : (s t : Bytes) → beq s t ≡ true → s ≡ t
unfolding beq
beq→eq [] [] h = refl
beq→eq [] (y ∷ t) h = cc
beq→eq (x ∷ s) [] h = cc
beq→eq (x ∷ s) (y ∷ t) h = ground (arith, beq→eq s t)

pub beq_sym : (s t : Bytes) → beq s t ≡ beq t s
unfolding beq
beq_sym [] [] = refl
beq_sym [] (y ∷ t) = refl
beq_sym (x ∷ s) [] = refl
beq_sym (x ∷ s) (y ∷ t) = ground (arith, beq_sym s t)

pub less_irrefl : (s : Bytes) → less s s ≡ false
unfolding less
less_irrefl [] = refl
less_irrefl (x ∷ s) = ground (arith, less_irrefl s)

pub less_trans : (s t u : Bytes) → less s t ≡ true → less t u ≡ true → less s u ≡ true
unfolding less
less_trans [] [] u h k = cc
less_trans [] (y ∷ t) [] h k = cc
less_trans [] (y ∷ t) (z ∷ u) h k = refl
less_trans (x ∷ s) [] u h k = cc
less_trans (x ∷ s) (y ∷ t) [] h k = cc
less_trans (x ∷ s) (y ∷ t) (z ∷ u) h k = ground (arith, less_trans s t u)

-- Strings that are not ordered either way are equal.
pub less_total : (s t : Bytes) → less s t ≡ false → beq s t ≡ false → less t s ≡ true
unfolding less beq
less_total [] [] h k = cc
less_total [] (y ∷ t) h k = cc
less_total (x ∷ s) [] h k = refl
less_total (x ∷ s) (y ∷ t) h k = ground (arith, less_total s t)

pub less-ne : (s t : Bytes) → less s t ≡ true → beq s t ≡ false
unfolding less beq
less-ne [] [] h = cc
less-ne [] (y ∷ t) h = refl
less-ne (x ∷ s) [] h = refl
less-ne (x ∷ s) (y ∷ t) h = ground (arith, less-ne s t)

pub less_asym : (s t : Bytes) → less s t ≡ true → less t s ≡ false
unfolding less
less_asym [] [] h = refl
less_asym [] (y ∷ t) h = refl
less_asym (x ∷ s) [] h = cc
less_asym (x ∷ s) (y ∷ t) h = ground (arith, less_asym s t)

-- From `s < u` and `t ≥ u` follows `s < t`.
pub less_cotrans : (s t u : Bytes) → less s u ≡ true → less t u ≡ false → less s t ≡ true
unfolding less
less_cotrans [] [] [] h k = cc
less_cotrans [] [] (z ∷ u) h k = cc
less_cotrans [] (y ∷ t) u h k = refl
less_cotrans (x ∷ s) t [] h k = cc
less_cotrans (x ∷ s) [] (z ∷ u) h k = cc
less_cotrans (x ∷ s) (y ∷ t) (z ∷ u) h k = ground (arith, less_cotrans s t u)

-- From `s ≤ t` and `t < u` follows `s < u`.
pub le-less_trans : (s t u : Bytes) → less t s ≡ false → less t u ≡ true → less s u ≡ true
unfolding less
le-less_trans [] [] u h k = k
le-less_trans [] (y ∷ t) [] h k = cc
le-less_trans [] (y ∷ t) (z ∷ u) h k = refl
le-less_trans (x ∷ s) [] u h k = cc
le-less_trans (x ∷ s) (y ∷ t) [] h k = cc
le-less_trans (x ∷ s) (y ∷ t) (z ∷ u) h k = ground (arith, le-less_trans s t u)
