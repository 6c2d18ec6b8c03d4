-- ===== src/Coverage.antt =====
-- Manifests of packages and the catalog they are compared with (pkg/coverage).
pub mod Matcher
pub mod Parser
use content_sources_backend.Common.{Text, codes}

-- Package, which parser.go and matcher.go declare alike.
pub record Package : Type 0 where
  pub ecosystem : Text
  pub name : Text
  pub version : Text
  pub namespace : Text

abbrev pub java : Text
java = codes "Java"

abbrev pub python : Text
python = codes "Python"
