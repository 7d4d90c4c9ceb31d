-- ===== src/Clients/Region.antt =====
-- The regions of the service (clients.go, lines 90 to 111).
use swf4go.Prelude.{String}

pub record Region : Type 0 where
  pub name : String
  pub swf_endpoint : String
  pub kinesis_endpoint : String

abbrev pub us_east_1 : Region
us_east_1 = record {
  name = "us-east-1";
  swf_endpoint = "https://swf.us-east-1.amazonaws.com";
  kinesis_endpoint = "https://kinesis.us-east-1.amazonaws.com";
}

abbrev pub us_west_1 : Region
us_west_1 = record {
  name = "us-west-1";
  swf_endpoint = "https://swf.us-west-1.amazonaws.com";
  kinesis_endpoint = "https://kinesis.us-west-1.amazonaws.com";
}

abbrev pub us_west_2 : Region
us_west_2 = record {
  name = "us-west-2";
  swf_endpoint = "https://swf.us-west-2.amazonaws.com";
  kinesis_endpoint = "https://kinesis.us-west-2.amazonaws.com";
}

abbrev pub eu_west_1 : Region
eu_west_1 = record {
  name = "eu-west-1";
  swf_endpoint = "https://swf.eu-west-1.amazonaws.com";
  kinesis_endpoint = "https://kinesis.eu-west-1.amazonaws.com";
}

abbrev pub ap_north_east_1 : Region
ap_north_east_1 = record {
  name = "ap-northeast-1";
  swf_endpoint = "https://swf.ap-northeast-1.amazonaws.com";
  kinesis_endpoint = "https://kinesis.ap-northeast-1.amazonaws.com";
}

abbrev pub ap_south_east_1 : Region
ap_south_east_1 = record {
  name = "ap-southeast-1";
  swf_endpoint = "https://swf.ap-southeast-1.amazonaws.com";
  kinesis_endpoint = "https://kinesis.ap-southeast-1.amazonaws.com";
}
