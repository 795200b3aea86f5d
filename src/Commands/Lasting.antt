-- ===== src/Commands/Lasting.antt =====
-- server/commands/*.cpp: the tables before and after a command.
use cpp_social_network_clien.Database.Keeps.{any_names}
use cpp_social_network_clien.Common.{ℕ, Text}
use cpp_social_network_clien.Database.{Engine}
use cpp_social_network_clien.Database.Growth.{Grows, Grows-refl, Grows-IsKept}
use cpp_social_network_clien.Database.Integrity.{IsValid, perform-IsValid}
use cpp_social_network_clien.Database.Lasting.{Lasts, Lasts-refl, Lasts-IsKept}
use cpp_social_network_clien.Database.Numbered.{IsKeyed, perform-IsKeyed}
use cpp_social_network_clien.Database.Typed.{IsTyped, perform-IsTyped}
use cpp_social_network_clien.App.{App}
use cpp_social_network_clien.Command.{Command}
use cpp_social_network_clien.Commands.{execute}
use cpp_social_network_clien.Commands.Keeps.{execute-keeps, no_names}

-- No command, successful or not, takes away or changes a participant, a message or a post.
pub execute-Grows :
    (hasher : Text → ℕ) (e : Engine) (command : Command) (sd : ℕ) (s : App)
    → Grows s.db (execute hasher e command sd s).0.db
execute-Grows hasher e command sd s =
    execute-keeps any_names (Grows s.db) (Grows-IsKept s.db) e hasher command sd s
      (no_names e sd s command) (Grows-refl s.db)

-- Every command, successful or not, keeps usernames, e-mail addresses, user ids, ordered pairs of
-- friends and memberships unique, and user ids at or below the sequence they come from.
pub execute-IsValid :
    (hasher : Text → ℕ) (e : Engine) (command : Command) (sd : ℕ) (s : App)
    → IsValid s.db
    → IsValid (execute hasher e command sd s).0.db
execute-IsValid hasher e command sd s v =
    execute-keeps any_names IsValid (λ now q db after a h p. perform-IsValid now q db after h p) e
      hasher command sd s (no_names e sd s command) v

-- No command, successful or not, takes away an account, changes its password, or ends a
-- friendship.
pub execute-Lasts :
    (hasher : Text → ℕ) (e : Engine) (command : Command) (sd : ℕ) (s : App)
    → Lasts s.db (execute hasher e command sd s).0.db
execute-Lasts hasher e command sd s =
    execute-keeps any_names (Lasts s.db) (Lasts-IsKept s.db) e hasher command sd s
      (no_names e sd s command) (Lasts-refl s.db)

-- Every command, successful or not, keeps the values of the columns in their ranges: roles are
-- normal or admin, profiles public or private, types of friends and visibilities of posts 0, 1 or
-- 2, and a friendship is pending or accepted.
pub execute-IsTyped :
    (hasher : Text → ℕ) (e : Engine) (command : Command) (sd : ℕ) (s : App)
    → IsTyped s.db
    → IsTyped (execute hasher e command sd s).0.db
execute-IsTyped hasher e command sd s v =
    execute-keeps any_names IsTyped perform-IsTyped e hasher command sd s (no_names e sd s command)
      v

-- Every command, successful or not, keeps usernames, e-mail addresses, ordered pairs of friends and
-- memberships unique, and the ids of users, of posts, of conversations and of messages unique and at
-- or below the sequence that they come from.
pub execute-IsKeyed :
    (hasher : Text → ℕ) (e : Engine) (command : Command) (sd : ℕ) (s : App)
    → IsKeyed s.db
    → IsKeyed (execute hasher e command sd s).0.db
execute-IsKeyed hasher e command sd s v =
    execute-keeps any_names IsKeyed (λ now q db after a h p. perform-IsKeyed now q db after h p) e
      hasher command sd s (no_names e sd s command) v
