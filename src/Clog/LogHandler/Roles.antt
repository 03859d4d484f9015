-- ===== src/Clog/LogHandler/Roles.antt =====
-- The notices of a role change of ObLogHandler. A handler is its address; what its methods do to the
-- state `S` of the program is an argument.
use lsm_storage.Prelude.{ℕ, ◌≡◌, refl, ◌∙◌, append-nil, List, [], ◌∷◌, ◌++◌, map, append_assoc}
use lsm_storage.Prelude.Assoc.{insert}

-- role_change_handlers_, by log type.
unfoldable pub register_role_change_handler : ℕ → ℕ → List (ℕ × ℕ) → List (ℕ × ℕ)
register_role_change_handler log_type handler handlers = insert log_type handler handlers

-- The loop over the handlers in the order of the map; what a method returns is not looked at.
unfoldable pub notify {ℓ} : {S : Type ℓ} → (ℕ → S → S) → List (ℕ × ℕ) → S → S
notify method [] s = s
notify method ((log_type, handler) ∷ rest) s = notify method rest (method handler s)

-- `order` is the order in which the iterator goes over the map.
module _ {ℓ} {S : Type ℓ} (order : List (ℕ × ℕ) → List (ℕ × ℕ)) where
  unfoldable pub switch_to_leader : (ℕ → S → S) → List (ℕ × ℕ) → S → S
  unfolding notify
  switch_to_leader method handlers s = notify method (order handlers) s

  unfoldable pub switch_to_follower : (ℕ → S → S) → List (ℕ × ℕ) → S → S
  unfolding notify
  switch_to_follower gracefully handlers s = notify gracefully (order handlers) s

-- Every handler is notified once, in the order of the map, after what was before.
pub notify-map :
    (handlers : List (ℕ × ℕ)) (calls : List ℕ)
    → notify (λ h seen. seen ++ h ∷ []) handlers calls ≡ calls ++ map (λ e. e.1) handlers
unfolding notify
notify-map [] calls = rw append-nil refl
notify-map ((log_type, handler) ∷ rest) calls =
    notify-map rest (calls ++ handler ∷ []) ∙ append_assoc calls (handler ∷ []) _
