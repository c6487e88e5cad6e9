-- ===== src/Permissions/Tests.antt =====
-- The permissions of domain/permissions.py at concrete roles.
use portex.Common.{◌≡◌, ◌||◌}
use portex.Permissions.{has_permission, has_permission-order}

has_permission-order_example :
    ((has_permission "member" "tasks" "read" || has_permission "admin" "tasks" "read")
      ≡ has_permission "admin" "tasks" "read")
    × ((has_permission "admin" "tasks" "read" || has_permission "owner" "tasks" "read")
        ≡ has_permission "owner" "tasks" "read")
has_permission-order_example = has_permission-order "tasks" "read"
