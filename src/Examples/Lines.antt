-- ===== src/Examples/Lines.antt =====
-- Lines of the protocol.
use cpp_social_network_clien.Common.{◌≡◌, refl, some, [], ◌∷◌, ◌++◌, pos, text, all}
use cpp_social_network_clien.Stream.Words.{IsWord}
use cpp_social_network_clien.Command.{Command}
use cpp_social_network_clien.CommandFactory.{create}
use cpp_social_network_clien.CommandFactory.RoundTrip.{
  create-group, create-set_friend_type_indeterminate, spaced,
}

ada-IsWord : IsWord (text "ada")
unfolding all
ada-IsWord = record { nonempty = refl; unspaced = refl }

create-group_example :
    create (pos 7) (text "group " ++ spaced (text "ada" ∷ text "ada" ∷ []))
    ≡ some (Command.group (text "ada" ∷ text "ada" ∷ []))
create-group_example =
    create-group (pos 7) (text "ada") (text "ada" ∷ []) (ada-IsWord, (ada-IsWord, tt))

create-set_friend_type_indeterminate_example :
    create (pos 7) (text "set_friend_type " ++ text "ada")
    ≡ some (Command.set_friend_type (text "ada") (pos 7))
create-set_friend_type_indeterminate_example =
    create-set_friend_type_indeterminate (pos 7) (text "ada") ada-IsWord
