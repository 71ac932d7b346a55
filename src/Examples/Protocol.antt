-- ===== src/Examples/Protocol.antt =====
-- A command as it comes in a frame: bridge/deskhelm_protocol/model.py.
use deskhelm.Prelude.{◌≡◌, ◌↔◌, refl}
use deskhelm.Json.{Json, object, members, of_members}
use deskhelm.Protocol.Fields.{
  ok, get, identity_field, int_field, object_field, enum_field, has_exactly, strip,
}
use deskhelm.Protocol.Texts.{IsIdentity, identity_field_iff}
use deskhelm.Protocol.Session.{key_from_object}
use deskhelm.Protocol.Command.{command_from_dict, command_fields}
use deskhelm.Protocol.Roundtrip.{IsCommand, command_from_dict-command_fields}
use deskhelm.Protocol.Sound.{command_from_dict-IsCommand}
use deskhelm.Examples.Frames.{approve_command}
use deskhelm.Examples.Commands.{approval}

identity_field_iff_example :
    (identity_field (Json.str "k-1") ≡ ok "k-1")
    ↔ ((Json.str "k-1" ≡ Json.str "k-1") × IsIdentity "k-1")
identity_field_iff_example = identity_field_iff (Json.str "k-1") "k-1"

command_from_dict-IsCommand_example : IsCommand (approval "c-1")
unfolding command_from_dict members of_members object_field enum_field get int_field has_exactly
    identity_field strip key_from_object
command_from_dict-IsCommand_example =
    command_from_dict-IsCommand (object approve_command) (approval "c-1") refl

parsed : IsCommand (approval "c-1")
unfolding command_from_dict members of_members object_field enum_field get int_field has_exactly
    identity_field strip key_from_object
parsed = command_from_dict-IsCommand (object approve_command) (approval "c-1") refl

command_from_dict-command_fields_example :
    command_from_dict (object (command_fields (approval "c-1"))) ≡ ok (approval "c-1")
command_from_dict-command_fields_example = command_from_dict-command_fields (approval "c-1") parsed
