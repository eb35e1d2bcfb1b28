-- ===== src/Schemas/Enums.antt =====
-- The string-valued enums of deepCab/schemas/enums.py that the modelled components use: the members,
-- and their `.value`.
use deep_cab.Prelude.{String}

pub data DataSize : Type 0 where
  s1k s10k s100k s500k full : DataSize

pub data Split : Type 0 where
  train val : Split

pub data BackendKind : Type 0 where
  tf_mlp torch_mlp xgb lgbm catboost ft_transformer : BackendKind

unfoldable pub backend_value : BackendKind → String
backend_value tf_mlp = "tf_mlp"
backend_value torch_mlp = "torch_mlp"
backend_value xgb = "xgb"
backend_value lgbm = "lgbm"
backend_value catboost = "catboost"
backend_value ft_transformer = "ft_transformer"
