-- ===== src/Schema/Defaults.antt =====
-- coppermind/schema.py: the schema of a fresh install (`default_schema`).
use coppermind.Base.{true, false, none, some, List, [], ◌∷◌}
use coppermind.Base.Texts.{Text, codes}
use coppermind.Base.Integers.{pos}
use coppermind.Schema.{
  null, boolean, integer, text, items, KeyKind, string_kind, int_kind, date_kind, bool_kind,
  enum_kind, list_kind, open_tags, KeyDefinition, FrontmatterSchema,
}

-- A key that is not required and has neither a default nor values of its own.
abbrev plain_key : Text → KeyKind → KeyDefinition
plain_key name kind = record {
  name = name;
  kind = kind;
  required = false;
  default = null;
  vocabulary = [];
  vocabulary_meanings = [];
  required_when = none;
  required_when_values = [];
}

-- `kind_key_definition` and `artifacts_key_definition`
abbrev pub kind_key_definition : KeyDefinition
kind_key_definition = record (plain_key (codes "kind") enum_kind) {
  default = text (codes "note");
  vocabulary = codes "note" ∷ codes "artifact" ∷ [];
  vocabulary_meanings =
      (codes "note", codes "Something you wrote, by hand or through a recorder: editable Markdown.")
      ∷ (
        codes "artifact",
        codes
            "A static file or link stored byte for byte through POST /v1/artifacts. Never a note; a note cites it.",
      )
      ∷ [];
}

abbrev pub artifacts_key_definition : KeyDefinition
artifacts_key_definition = plain_key (codes "artifacts") list_kind

abbrev pub default_keys : List KeyDefinition
default_keys =
    record (plain_key (codes "schema_version") int_kind) {
      required = true;
      default = integer (pos 1);
    }
    ∷ record (plain_key (codes "id") string_kind) { required = true }
    ∷ plain_key (codes "date") date_kind
    ∷ record (plain_key (codes "type") enum_kind) {
      required = true;
      default = text (codes "reference");
      vocabulary = codes "work" ∷ codes "personal" ∷ codes "reference" ∷ codes "journal" ∷ [];
    }
    ∷ record (plain_key (codes "context") enum_kind) {
      required = true;
      default = text (codes "internal");
      vocabulary = codes "internal" ∷ codes "external" ∷ codes "personal" ∷ [];
    }
    ∷ record (plain_key (codes "account") list_kind) {
      required_when = some (codes "context");
      required_when_values = codes "external" ∷ [];
    }
    ∷ record (plain_key (codes "reviewed") bool_kind) { required = true; default = boolean false }
    ∷ record (plain_key (codes "sources") list_kind) { required = true; default = items [] }
    ∷ record (plain_key (codes "tags") list_kind) { default = items [] }
    ∷ kind_key_definition
    ∷ artifacts_key_definition
    ∷ []

abbrev pub default_schema : FrontmatterSchema
default_schema = record {
  schema_version = pos 1;
  keys = default_keys;
  roles =
      (codes "schema_version_key", codes "schema_version")
      ∷ (codes "id_key", codes "id")
      ∷ (codes "date_key", codes "date")
      ∷ (codes "type_key", codes "type")
      ∷ (codes "context_key", codes "context")
      ∷ (codes "account_key", codes "account")
      ∷ (codes "reviewed_key", codes "reviewed")
      ∷ (codes "sources_key", codes "sources")
      ∷ (codes "tags_key", codes "tags")
      ∷ (codes "kind_key", codes "kind")
      ∷ (codes "artifacts_key", codes "artifacts")
      ∷ [];
  tags =
      (
        codes "reference",
        codes
            "Reference material: a how-to you wrote, an upgrade deck, a paper. A note or an artifact can carry it; it changes nothing about storage or filing.",
      )
      ∷ [];
  tag_aliases = [];
  tag_mode = open_tags;
}
