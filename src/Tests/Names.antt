-- ===== src/Tests/Names.antt =====
-- The theorems on names, permissions, sizes and types, at examples.
use okssystem.Prelude.{◌+◌, ◌*◌, ◌/◌, ◌%◌, ◌≡◌, [], ◌∷◌, Text, codes}
use okssystem.File.Names.{newline}
use okssystem.File.Pretty.{pretty_permissions}
use okssystem.File.Pretty.Permissions.{read_flags, shown_masks, read_flags-pretty_permissions}

abbrev url : Text
url = codes "http://host/a"

abbrev path : Text
path = codes "/usr/bin"

abbrev lines : Text
lines = b'a' ∷ newline ∷ b'b' ∷ []

read_flags-pretty_permissions_example :
    read_flags (pretty_permissions 0o4755) shown_masks ≡ 0o4755 / 2048 % 2 * 2048 + 0o4755 % 512
read_flags-pretty_permissions_example = read_flags-pretty_permissions 0o4755
