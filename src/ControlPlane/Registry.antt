-- ===== src/ControlPlane/Registry.antt =====
-- control_plane/registry/memory_instance_repository.py and memory_template_repository.py: agent
-- instances and templates under numbered identifiers. A status is "active" or "archived". Two
-- instances made with the same `config` object do not share it here.
pub mod Listed
use kitematic.Base.{
  ℕ, ◌+◌, String, ◌<>◌, show, str_eq, is_empty, Bool, Option, none, some, List, [], ◌∷◌, select,
  if◌then◌else◌,
}
use kitematic.Base.Dict.{Dict, lookup, insert, values}
use kitematic.Kernel.Values.{Value}

pub record Instance : Type 0 where
  pub id : String
  pub tenant_id : String
  pub template_id : String
  pub name : String
  pub config : Dict Value
  pub status : String

pub record Instances : Type 0 where
  pub instances : Dict Instance
  pub next_id : ℕ

abbrev pub new_instances : Instances
new_instances = record { instances = []; next_id = 1 }

unfoldable pub create_instance :
    (tenant_id template_id name : String) → Dict Value → Instances → String × Instances
create_instance tenant_id template_id name config s = (
  "inst-" <> show s.next_id,
  record {
    instances =
        insert ("inst-" <> show s.next_id)
          (record {
            id = "inst-" <> show s.next_id;
            tenant_id = tenant_id;
            template_id = template_id;
            name = name;
            config = config;
            status = "active";
          })
          s.instances;
    next_id = s.next_id + 1;
  },
)

unfoldable pub get_instance : String → Instances → Option Instance
get_instance instance_id s = lookup instance_id s.instances

unfoldable pub list_instances : String → Instances → List Instance
list_instances tenant_id s = select (λ i. str_eq i.tenant_id tenant_id) (values s.instances)

-- `config.update(more)`
unfoldable pub merged : Dict Value → Dict Value → Dict Value
merged config [] = config
merged config ((k, v) ∷ more) = merged (insert k v config) more

unfoldable pub changed_instance :
    Option Instance → String → (Instance → Instance) → Instances → Instances
changed_instance none instance_id change s = s
changed_instance (some i) instance_id change s = record s {
  instances = insert instance_id (change i) s.instances;
}

unfoldable pub update_instance : String → Dict Value → Instances → Instances
unfolding changed_instance merged
update_instance instance_id more s =
    changed_instance (lookup instance_id s.instances) instance_id
      (λ i. record i { config = merged i.config more }) s

unfoldable pub delete_instance : String → Instances → Instances
unfolding changed_instance
delete_instance instance_id s =
    changed_instance (lookup instance_id s.instances) instance_id
      (λ i. record i { status = "archived" }) s

pub record Template : Type 0 where
  pub id : String
  pub name : String
  pub framework : String
  pub manifest : Dict Value
  pub status : String

pub record Templates : Type 0 where
  pub templates : Dict Template
  pub next_id : ℕ

unfoldable pub create_template :
    (name framework : String) → Dict Value → Templates → String × Templates
create_template name framework manifest s = (
  "tpl-" <> show s.next_id,
  record {
    templates =
        insert ("tpl-" <> show s.next_id)
          (record {
            id = "tpl-" <> show s.next_id;
            name = name;
            framework = framework;
            manifest = manifest;
            status = "active";
          })
          s.templates;
    next_id = s.next_id + 1;
  },
)

unfoldable pub get_template : String → Templates → Option Template
get_template template_id s = lookup template_id s.templates

-- an empty framework is none
unfoldable pub list_templates : String → Templates → List Template
list_templates framework s =
    if is_empty framework
    then values s.templates
    else select (λ t. str_eq t.framework framework) (values s.templates)

unfoldable pub archived_template : Option Template → String → Templates → Templates
archived_template none template_id s = s
archived_template (some t) template_id s = record s {
  templates = insert template_id (record t { status = "archived" }) s.templates;
}

unfoldable pub delete_template : String → Templates → Templates
unfolding archived_template
delete_template template_id s = archived_template (lookup template_id s.templates) template_id s
