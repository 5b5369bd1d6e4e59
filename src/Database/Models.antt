-- ===== src/Database/Models.antt =====
-- database/models.py: the rows of the tables. A time is a number of seconds.
use config_manager.Prelude.{ℕ, Bool, Option, [], ◌∷◌, none, some}
use config_manager.Prelude.Text.{Text}
use config_manager.Utils.Codec.{Value}

pub record User : Type 0 where
  pub user_id : ℕ
  pub first_name : Option Text
  pub username : Option Text
  pub joined_at : ℕ

pub record Admin : Type 0 where
  pub user_id : ℕ
  pub added_at : ℕ
  pub added_by : Option ℕ

pub record VipUser : Type 0 where
  pub user_id : ℕ
  pub added_at : ℕ

pub record ProcessedConfig : Type 0 where
  pub id : ℕ
  pub raw_config : Text
  pub watermarked_config : Option Text
  pub config_hash : Text
  pub country_code : Option Text
  pub protocol : Option Text
  pub host : Option Value
  pub source : Option Text
  pub is_valid : Bool
  pub created_at : ℕ

pub record CleanIp : Type 0 where
  pub id : ℕ
  pub ip : Text
  pub created_at : ℕ

pub record UserStat : Type 0 where
  pub user_id : ℕ
  pub start_count : ℕ
  pub last_activity : Option ℕ

pub record ScraperSource : Type 0 where
  pub id : ℕ
  pub name : Text
  pub url : Text
  pub source_type : Text
  pub is_active : Bool
  pub last_scraped : Option ℕ
  pub last_config_count : ℕ
  pub created_at : ℕ

-- `row.watermarked_config or row.raw_config`
unfoldable pub config_text : ProcessedConfig → Text
config_text row = elim row.watermarked_config [
  | none ↦ row.raw_config
  | some w ↦ elim w [ [] ↦ row.raw_config | c ∷ s ↦ c ∷ s ]
]
