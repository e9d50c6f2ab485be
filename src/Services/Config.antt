-- ===== src/Services/Config.antt =====
-- services/*/main.go: what each main reads from its environment. `env` is os.Getenv, which gives the
-- empty text for a variable that is not set; nats.DefaultURL is an argument.
use reliability_lab.Common.{String}
use reliability_lab.Services.Startup.{env_or}

pub record OrdersConfig : Type 0 where
  pub http_addr : String
  pub pay_addr : String
  pub nats_url : String
  pub subject : String
  pub app_version : String
  pub flag_file : String

pub record PaymentsConfig : Type 0 where
  pub grpc_addr : String
  pub http_addr : String
  pub inv_addr : String
  pub app_version : String

pub record InventoryConfig : Type 0 where
  pub grpc_addr : String
  pub http_addr : String
  pub app_version : String

pub record EmailConfig : Type 0 where
  pub http_addr : String
  pub nats_url : String
  pub subject : String
  pub app_version : String

module _ (env : String → String) where
  abbrev http_addr_of : String
  http_addr_of = env_or (env "LISTEN_ADDR_HTTP") ":8080"

  abbrev grpc_addr_of : String
  grpc_addr_of = env_or (env "LISTEN_ADDR_GRPC") ":9000"

  abbrev app_version_of : String
  app_version_of = env_or (env "APP_VERSION") "dev"

  unfoldable pub orders_config : String → OrdersConfig
  orders_config default_url = record {
    http_addr = http_addr_of;
    pay_addr = env_or (env "PAYMENTS_ADDR") "payments-svc:9000";
    nats_url = env_or (env "NATS_URL") default_url;
    subject = env_or (env "NATS_SUBJECT") "orders.events.created";
    app_version = app_version_of;
    flag_file = env_or (env "CIRCUIT_BREAK_FLAG_FILE") "/etc/orders-flags/publish_enabled";
  }

  unfoldable pub payments_config : PaymentsConfig
  payments_config = record {
    grpc_addr = grpc_addr_of;
    http_addr = http_addr_of;
    inv_addr = env_or (env "INVENTORY_ADDR") "inventory-svc:9000";
    app_version = app_version_of;
  }

  unfoldable pub inventory_config : InventoryConfig
  inventory_config = record {
    grpc_addr = grpc_addr_of;
    http_addr = http_addr_of;
    app_version = app_version_of;
  }

  unfoldable pub email_config : String → EmailConfig
  email_config default_url = record {
    http_addr = http_addr_of;
    nats_url = env_or (env "NATS_URL") default_url;
    subject = env_or (env "NATS_SUBJECT") "orders.events.created";
    app_version = app_version_of;
  }
