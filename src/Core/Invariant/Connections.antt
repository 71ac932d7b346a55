-- ===== src/Core/Invariant/Connections.antt =====
-- How many connections have a role, after each change of `_connections`.
use deskhelm.Prelude.{◌+◌, ◌≤◌, ◌≡◌, String, string_eq, false, [], ◌∷◌, none, some, arith}
use deskhelm.Dict.{Dict, insert, remove, modify, map_values}
use deskhelm.Core.State.{Connection, Role}
use deskhelm.Core.Hosts.{Hello, greet, role_count, same_role}

module _ (role : Role) where
  -- A change that gives the role to no connection.
  pub role_count-modify :
      (id : String) (f : Connection → Connection) (d : Dict String Connection)
      → ((s : Connection) → (f s).role ≡ s.role)
      → role_count role (modify id f d) ≡ role_count role d
  unfolding role_count modify
  role_count-modify id f [] same = omega arith
  role_count-modify id f ((j, s) ∷ d) same = ground (arith, same s, role_count-modify id f d same)

  pub role_count-map_values :
      (f : Connection → Connection) (d : Dict String Connection)
      → ((s : Connection) → (f s).role ≡ s.role)
      → role_count role (map_values f d) ≡ role_count role d
  unfolding role_count
  role_count-map_values f [] same = omega arith
  role_count-map_values f ((j, s) ∷ d) same = ground (arith, same s, role_count-map_values f d same)

  pub role_count-remove-le :
      (id : String) (d : Dict String Connection) → role_count role (remove id d) ≤ role_count role d
  unfolding role_count remove
  role_count-remove-le id [] = omega arith
  role_count-remove-le id ((j, s) ∷ d) = ground (arith, role_count-remove-le id d)

  -- A connection that has not said hello counts for no role.
  pub role_count-insert-le :
      (id : String) (s : Connection) (d : Dict String Connection)
      → s.role ≡ none
      → role_count role (insert id s d) ≤ role_count role d
  unfolding role_count insert same_role
  role_count-insert-le id s [] h = ground arith
  role_count-insert-le id s ((j, w) ∷ d) h = ground (arith, role_count-insert-le id s d h)

  -- A hello gives at most one connection the role.
  pub role_count-modify-suc :
      (id : String) (f : Connection → Connection) (d : Dict String Connection)
      → role_count role (modify id f d) ≤ role_count role d + 1
  unfolding role_count modify
  role_count-modify-suc id f [] = omega arith
  role_count-modify-suc id f ((j, s) ∷ d) = ground (arith, role_count-modify-suc id f d)

  -- A hello in another role changes this count by nothing more.
  pub role_count-greet :
      (h : Hello) (id : String) (d : Dict String Connection)
      → same_role role (some h.role) ≡ false
      → role_count role (modify id (greet h) d) ≤ role_count role d
  unfolding role_count modify greet
  role_count-greet h id [] other = omega arith
  role_count-greet h id ((j, s) ∷ d) other = ground (arith, role_count-greet h id d other)
