-- ===== src/Api/ProxmoxProvider.antt =====
-- api/v1/proxmoxprovider_types.go
use xenonite.Base.{String, List, Bool}
use xenonite.Base.Int.{ℤ}
use xenonite.Api.Core.{ObjectMeta, Condition}

pub record ProxmoxCredentials : Type 0 where
  pub username : String
  pub password : String
  pub realm : String

pub record TemplateSource : Type 0 where
  pub node : String
  pub vmid : ℤ

pub record CloudInitConfig : Type 0 where
  pub user_data : String
  pub storage : String
  pub device : String

pub record SecretKeyRef : Type 0 where
  pub name : String
  pub key : String

pub record BootstrapConfig : Type 0 where
  pub server : String
  pub token_secret_ref : SecretKeyRef

pub record ProxmoxProviderSpec : Type 0 where
  pub endpoint : String
  pub insecure : Bool
  pub credentials : ProxmoxCredentials
  pub nodes : List String
  pub pool : String
  pub source_template : TemplateSource
  pub storage : String
  pub network_bridge : String
  pub tags : List String
  pub cloud_init : CloudInitConfig
  pub bootstrap : BootstrapConfig

pub record ProxmoxProviderStatus : Type 0 where
  pub conditions : List Condition

pub record ProxmoxProvider : Type 0 where
  pub metadata : ObjectMeta
  pub spec : ProxmoxProviderSpec
  pub status : ProxmoxProviderStatus
