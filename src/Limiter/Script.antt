-- ===== src/Limiter/Script.antt =====
-- The text of `TOKEN_BUCKET_LUA_SCRIPT`, which goes to the server with every call.
use lfgateway.Base.{◌++◌}
use lfgateway.Base.Text.{Bytes, codes}

pub token_bucket_lua_script : Bytes
token_bucket_lua_script =
    codes "\n"
    ++ (codes "    local key = KEYS[1]\n"
        ++ (codes "    local capacity = tonumber(ARGV[1])\n"
            ++ (codes "    local rate = tonumber(ARGV[2])\n"
                ++ (codes "    local now = tonumber(ARGV[3])\n"
                    ++ (codes "\n"
                        ++ (codes
                              "    local bucket = redis.call('hmget', key, 'tokens', 'last_time')\n"
                            ++ (codes "    local tokens = tonumber(bucket[1])\n"
                                ++ (codes "    local last_time = tonumber(bucket[2])\n"
                                    ++ (codes "\n"
                                        ++ (codes "    if tokens == nil then\n"
                                            ++ (codes "        tokens = capacity\n"
                                                ++ (codes "        last_time = now\n"
                                                    ++ (codes "    else\n"
                                                        ++ (codes
                                                            "        local elapsed_ms = math.max(0, now - last_time)\n"
                                                            ++ (codes
                                                            "        local refill = elapsed_ms * (rate / 1000.0)\n"
                                                            ++ (codes
                                                            "        tokens = math.min(capacity, tokens + refill)\n"
                                                            ++ (codes "    end\n"
                                                            ++ (codes "\n"
                                                            ++ (codes "    if tokens >= 1 then\n"
                                                            ++ (codes
                                                            "        tokens = tokens - 1\n"
                                                            ++ (codes
                                                            "        redis.call('hmset', key, 'tokens', tokens, 'last_time', now)\n"
                                                            ++ (codes
                                                            "        redis.call('expire', key, 3)\n"
                                                            ++ (codes "        return 1\n"
                                                            ++ (codes "    else\n"
                                                            ++ (codes
                                                            "        redis.call('hmset', key, 'tokens', tokens, 'last_time', last_time)\n"
                                                            ++ (codes
                                                            "        redis.call('expire', key, 3)\n"
                                                            ++ (codes "        return 0\n"
                                                            ++ (codes
                                                            "    end\n"))))))))))))))))))))))))))))
