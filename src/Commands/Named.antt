-- ===== src/Commands/Named.antt =====
-- server/commands/*.cpp: the names of the users stay words of the protocol.
use cpp_social_network_clien.Common.{ℕ, ◌≡◌, false, Text, nat_eq, is_empty}
use cpp_social_network_clien.Stream.Words.{IsWord}
use cpp_social_network_clien.Database.{Engine}
use cpp_social_network_clien.Database.Named.{IsNamed, new_words, perform-IsNamed}
use cpp_social_network_clien.App.{App}
use cpp_social_network_clien.Command.{Command}
use cpp_social_network_clien.Commands.{execute}
use cpp_social_network_clien.Commands.Keeps.{execute-keeps, NamesKnown, no_names}

-- The name of a new account, as it comes out of the protocol.
abbrev pub IsSpelled : Command → Type 0
IsSpelled (Command.register username _ _ _ _) = is_empty username ≡ false → IsWord username
IsSpelled _ = Unit

spelled_known :
    (e : Engine) (command : Command) (sd : ℕ) (s : App)
    → IsSpelled command
    → NamesKnown new_words e sd s command
spelled_known e (Command.register username _ _ _ _) sd s h = h
spelled_known e command sd s h = no_names e sd s command

-- Every command whose new name, if it has one, comes out of the protocol keeps the names of the
-- users words.
pub execute-IsNamed :
    (hasher : Text → ℕ) (e : Engine) (command : Command) (sd : ℕ) (s : App)
    → IsNamed s.db
    → IsSpelled command
    → IsNamed (execute hasher e command sd s).0.db
execute-IsNamed hasher e command sd s v h =
    execute-keeps new_words IsNamed perform-IsNamed e hasher command sd s
      (spelled_known e command sd s h) v
