-- ===== src/Model/Commerce.antt =====
-- Gift requests and artworks as nanacoin_ui/src/app/demo/commerce.ts keeps them.
use nanacoin.Prelude.{ℕ, Bool, List, Option, ℤ, Text}

pub record GiftRequest : Type 0 where
  pub id : ℕ
  pub owner : ℕ
  pub title : Text
  pub description : Text
  pub target : Option ℤ
  pub deadline : Option ℕ
  pub received : ℤ
  pub closed : Bool
  pub created_at : ℕ

pub record Artwork : Type 0 where
  pub id : ℕ
  pub creator : ℕ
  pub owner : ℕ
  pub title : Text
  pub license : Text
  pub sha256 : Text
  pub locator : Text
  pub price : Option ℤ
  pub revision : ℕ
  pub equipped : Bool
  pub created_at : ℕ

pub record CommerceState : Type 0 where
  pub requests : List GiftRequest
  pub artworks : List Artwork
