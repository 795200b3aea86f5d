-- ===== src/SessionManager/Laws.antt =====
-- The socket maps of server/SessionManager.cpp as functions of the socket.
use cpp_social_network_clien.Common.{
  ℕ, ◌≡◌, none, some, [], ◌∷◌, arith, ◌==◌, nat_eq, if◌then◌else◌,
}
use cpp_social_network_clien.SessionManager.{SocketMap, find, erase, put}

module _ {ℓ} {V : Type ℓ} where
  pub find-erase :
      (k j : ℕ) (m : SocketMap V) → find j (erase k m) ≡ (if k == j then none else find j m)
  unfolding find erase
  find-erase k j [] = ground arith
  find-erase k j ((i, v) ∷ m) = ground (arith, find-erase k j m)

  pub find-put :
      (k j : ℕ) (v : V) (m : SocketMap V)
      → find j (put k v m) ≡ (if k == j then some v else find j m)
  unfolding find put
  find-put k j v m = ground (arith, find-erase k j m)
