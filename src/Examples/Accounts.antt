-- ===== src/Examples/Accounts.antt =====
-- Registrations, logins, and what every command keeps.
use cpp_social_network_clien.Common.{
  distinct, all, any, ◌⊎◌, ◌≡◌, refl, true, false, ◌||◌, inl, inr, ◌==◌, text, any, text_eq,
  text_beq, arith,
}
use cpp_social_network_clien.Database.Integrity.{init_database-IsValid, IsValid}
use cpp_social_network_clien.Database.Growth.{Grows}
use cpp_social_network_clien.Database.Users.{hash_password}
use cpp_social_network_clien.SessionManager.{login, is_authenticated, find}
use cpp_social_network_clien.Database.Numbered.{IsKeyed}
use cpp_social_network_clien.Command.{Command}
use cpp_social_network_clien.Commands.{execute}
use cpp_social_network_clien.Commands.Account.{execute_register, execute_login}
use cpp_social_network_clien.Commands.Account.Registration.{
  IsAcceptable, with_user, execute_register_adds, execute_register_taken,
}
use cpp_social_network_clien.Commands.Lasting.{
  execute-IsValid, execute-IsKeyed, execute-Grows, execute-Lasts,
}
use cpp_social_network_clien.Commands.Account.Session.{execute_login_after_register}
use cpp_social_network_clien.Commands.Guest.{execute_guest}
use cpp_social_network_clien.Database.Lasting.{Lasts}
use cpp_social_network_clien.App.{init_app}
use cpp_social_network_clien.Examples.Setting.{
  ideal, ideal-IsReliable, broken, hasher, town, town-IsValid, evening, ada_chatting,
}

eve-IsAcceptable :
    IsAcceptable (text "eve") (text "pw") (text "eve@mail") (text "admin") (text "private")
eve-IsAcceptable = record {
  username_given = refl;
  password_given = refl;
  email_given = refl;
  role_known = inr refl;
  visibility_known = inr refl;
}

ada-IsAcceptable :
    IsAcceptable (text "ada") (text "pw") (text "eve@mail") (text "normal") (text "public")
ada-IsAcceptable = record {
  username_given = refl;
  password_given = refl;
  email_given = refl;
  role_known = inl refl;
  visibility_known = inl refl;
}

eve_fresh : any (λ r. r.username == text "eve" || r.email == text "eve@mail") town.users ≡ false
unfolding any text_beq
eve_fresh = refl

execute_register_adds_example :
    execute_register hasher ideal
      (text "eve")
      (text "pw")
      (text "eve@mail")
      (text "admin")
      (text "private")
      evening
    ≡ (
      record evening {
        db =
            with_user town
              (text "eve")
              (hash_password hasher (text "pw"))
              (text "eve@mail")
              (text "admin")
              (text "private");
      },
      text "OK User registered\n",
    )
execute_register_adds_example =
    execute_register_adds hasher ideal (text "eve") (text "pw") (text "eve@mail") (text "admin")
      (text "private") evening ideal-IsReliable town-IsValid (omega arith) eve-IsAcceptable
      eve_fresh

ada_taken : any (λ r. r.username == text "ada" || r.email == text "eve@mail") town.users ≡ true
unfolding any text_beq
ada_taken = refl

execute_register_taken_example :
    execute_register hasher broken
      (text "ada")
      (text "pw")
      (text "eve@mail")
      (text "normal")
      (text "public")
      evening
    ≡ (evening, text "ERROR User already exists\n")
execute_register_taken_example =
    execute_register_taken hasher broken (text "ada") (text "pw") (text "eve@mail") (text "normal")
      (text "public") evening ada-IsAcceptable ada_taken

eve_unknown : any (λ q. q.username == text "eve") town.users ≡ false
unfolding any text_beq
eve_unknown = refl

town-IsKeyed : IsKeyed town
unfolding distinct all any
town-IsKeyed = record {
  valid = town-IsValid;
  numbers = record { posts = refl; conversations = refl; messages = refl };
}

execute-IsKeyed_example :
    IsKeyed (execute hasher ideal (Command.chat (text "bob")) 5 ada_chatting).0.db
execute-IsKeyed_example =
    execute-IsKeyed hasher ideal (Command.chat (text "bob")) 5 ada_chatting town-IsKeyed

execute-Grows_example :
    Grows town (execute hasher broken (Command.chat (text "bob")) 5 ada_chatting).0.db
execute-Grows_example = execute-Grows hasher broken (Command.chat (text "bob")) 5 ada_chatting

eve_out : is_authenticated 5 evening.sessions ≡ false
unfolding is_authenticated find
eve_out = refl

execute_login_after_register_example :
    let after =
      (execute_register hasher ideal
        (text "eve")
        (text "pw")
        (text "eve@mail")
        (text "admin")
        (text "private")
        evening).0 in
    execute_login hasher ideal (text "eve") (text "pw") 5 after ≡ (
      record after { sessions = login 5 (text "eve") evening.sessions },
      text "OK Login successful\n",
    )
execute_login_after_register_example =
    execute_login_after_register hasher ideal ideal (text "eve") (text "pw") (text "eve@mail")
      (text "admin") (text "private") 5 evening ideal-IsReliable ideal-IsReliable town-IsValid
      (omega arith) eve-IsAcceptable eve_fresh eve_out

execute_guest_example :
    (execute hasher ideal (Command.send (text "hi")) 5 evening
      ≡ (evening, text "ERROR Not logged in\n"))
    ⊎ (execute hasher ideal (Command.send (text "hi")) 5 evening
        ≡ (evening, text "ERROR Not authenticated"))
execute_guest_example = execute_guest hasher ideal (Command.send (text "hi")) 5 evening eve_out refl

execute-Lasts_example :
    Lasts town (execute hasher ideal (Command.accept_friend (text "cyd")) 5 ada_chatting).0.db
execute-Lasts_example =
    execute-Lasts hasher ideal (Command.accept_friend (text "cyd")) 5 ada_chatting

-- A server that starts on a new file has valid keys, and still after the first registration.
first_user-IsValid :
    IsValid
      (execute hasher ideal
        (Command.register
          (text "eve")
          (text "pw")
          (text "eve@mail")
          (text "admin")
          (text "private"))
        4
        init_app).0.db
first_user-IsValid =
    execute-IsValid hasher ideal
      (Command.register (text "eve") (text "pw") (text "eve@mail") (text "admin") (text "private"))
      4 init_app init_database-IsValid
