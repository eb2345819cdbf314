-- ===== src/Api/Image.antt =====
-- api/v1alpha1/image_types.go, with ContainerInitDefaults of container_init_types.go.
use controller.Base.{ℤ, String, Bool, Option, List, Map}
use controller.Api.Meta.{ObjectMeta, Condition}
use controller.Api.Workspace.{Container}

pub record ContainerInitDefaults : Type 0 where
  pub mode : String
  pub default_user : String
  pub run_as_user : String

pub record ImageRemoteDesktop : Type 0 where
  pub protocol : String
  pub port : ℤ
  pub path : String

pub record ImageLink : Type 0 where
  pub title : String
  pub url : String

pub record ImageEnvVar : Type 0 where
  pub name : String
  pub value : String

pub record ImageCredentials : Type 0 where
  pub username : String
  pub password : String

pub record ImagePort : Type 0 where
  pub name : String
  pub port : ℤ
  pub protocol : String

pub record ImageProxyConfig : Type 0 where
  pub needs_noop_sw : Bool
  pub web_socket_paths : List String
  pub rewrite_host_absolute_paths : Bool
  pub custom_request_headers : Map
  pub inject_base_tag : Bool
  pub scheme : String
  pub tls_skip_verify : Bool
  pub tls_insecure : Bool
  pub preserve_path_prefix : Bool
  pub audio_port : ℤ
  pub agent_port : ℤ
  pub port : ℤ

pub record ImageSpec : Type 0 where
  pub image : String
  pub display_name : String
  pub description : String
  pub category : String
  pub tags : List String
  pub default_port : ℤ
  pub default_path : String
  pub icon : String
  pub default_args : List String
  pub default_command : List String
  pub default_container_init : Option ContainerInitDefaults
  pub default_env : List ImageEnvVar
  pub default_credentials : Option ImageCredentials
  pub privileged : Bool
  pub homepage_url : String
  pub source_url : String
  pub image_homepage_url : String
  pub default_user : String
  pub default_password : String
  pub default_cloud_init : Bool
  pub default_user_data : String
  pub default_homedir : String
  pub default_shell : String
  pub links : List ImageLink
  pub proxy_config : Option ImageProxyConfig
  pub default_uid : Option ℤ
  pub default_init_containers : List Container
  pub additional_ports : List ImagePort
  pub default_shared_memory : Bool
  pub default_image_pull_policy : String
  pub workspace_types : List String
  pub vm_profile : String
  pub persistent_root_disk : Bool
  pub persistent_root_disk_size : String
  pub memory_limit : String
  pub memory_request : String
  pub video_device : String
  pub sound_device : String
  pub remote_desktop : Option ImageRemoteDesktop

pub record ImageStatus : Type 0 where
  pub conditions : List Condition

pub record Image : Type 0 where
  pub meta : ObjectMeta
  pub open meta use *
  pub spec : ImageSpec
  pub status : ImageStatus
